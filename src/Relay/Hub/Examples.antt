-- ===== src/Relay/Hub/Examples.antt =====
-- A device that connects, works, and is replaced by a newer connection.
use seven_mirror_server.Common.{ℕ, ◌≡◌, ◌≤◌, refl, true, false, some, List, [], ◌∷◌, arith}
use seven_mirror_server.Common.Bytes.{equal}
use seven_mirror_server.Common.Result.{ok, err}
use seven_mirror_server.Relay.{PeerIdentity}
use seven_mirror_server.Relay.Hub.{
  new_hub, attempt, begin_disconnect, lock_operations, leave_slot, finish_disconnect,
  enter_operation, lock_reading, check_active, finish_operation, deliver_online,
}
use seven_mirror_server.Relay.Hub.Events.{
  Event, register, disconnect, lock, leave, finish, enter, read_lock, check, end, deliver, react,
  react_all,
}
use seven_mirror_server.Relay.Hub.Registering.{
  register_session, register_loop, handover_timeout, stale,
}
use seven_mirror_server.Relay.Hub.Soundness.{
  IsSound, react_all-IsSound, new_hub-IsSound, running-session,
}
use seven_mirror_server.Relay.Hub.Registration.{IsRegistered, register_session-IsRegistered}
use seven_mirror_server.Relay.Hub.Draining.{IsFreed, departure, departure-IsFreed}

abbrev peer : PeerIdentity
peer = record { workspace_id = 1 ∷ []; device_id = 2 ∷ [] }

-- A connection of version 1 with an operation that runs.
abbrev connected : List Event
connected = register peer 1 2 ∷ enter 0 ∷ read_lock 0 ∷ check 0 ∷ deliver peer (7 ∷ []) ∷ []

works : ((react_all new_hub connected).session 0).running ≡ 1
unfolding react_all react new_hub attempt enter_operation lock_reading check_active deliver_online
    equal
works = refl

-- The operation returns, and the old connection's cleanup runs.
abbrev cleanup : List Event
cleanup = disconnect 0 ∷ lock 0 ∷ end 0 ∷ lock 0 ∷ leave 0 ∷ finish 0 ∷ []

replaced :
    (register_session (λ h s. (cleanup, true)) (react_all new_hub connected) peer 1 2).0 ≡ ok 1
unfolding register_session register_loop react_all react new_hub attempt enter_operation
    lock_reading check_active deliver_online begin_disconnect lock_operations leave_slot
    finish_disconnect finish_operation equal
replaced = refl

timed_out :
    (register_session
      (λ h s. (disconnect 0 ∷ lock 0 ∷ [], false))
      (react_all new_hub connected)
      peer
      1
      2).0
    ≡ err handover_timeout
unfolding register_session register_loop react_all react new_hub attempt enter_operation
    lock_reading check_active deliver_online begin_disconnect lock_operations equal
timed_out = refl

older_refused :
    (register_session
      (λ h s. (cleanup, true))
      (react_all new_hub (register peer 3 2 ∷ []))
      peer
      2
      2).0
    ≡ err stale
unfolding register_session register_loop react_all react new_hub attempt equal
older_refused = refl

react_all-IsSound_example : IsSound peer 0 (react_all new_hub connected)
react_all-IsSound_example = react_all-IsSound new_hub connected 0 peer (new_hub-IsSound 0 peer)

running-session_example :
    (◌≡◌ {A = ℕ} 0 0)
    × ((react_all new_hub connected).devices ((react_all new_hub connected).session 0).peer
        ≡ some 0)
unfolding react_all react new_hub attempt enter_operation lock_reading check_active deliver_online
    equal
running-session_example =
    running-session connected 0 0 (omega (arith, works)) (omega (arith, works)) refl

register_session-IsRegistered_example :
    IsRegistered peer 1 2 1
      (register_session (λ h s. (cleanup, true)) (react_all new_hub connected) peer 1 2).1
    × (1 ≤ 1)
    × (1 ≤ 2)
register_session-IsRegistered_example =
    register_session-IsRegistered connected (λ h s. (cleanup, true)) peer 1 2 1
      (register_session (λ h s. (cleanup, true)) (react_all new_hub connected) peer 1 2).1
      (λ i. (
        replaced i,
        (register_session (λ h s. (cleanup, true)) (react_all new_hub connected) peer 1 2).1,
      ))

departure-IsFreed_example :
    IsFreed
      (react_all new_hub connected)
      0
      (react_all (react_all new_hub connected) (departure (react_all new_hub connected) 0))
unfolding react_all react new_hub attempt enter_operation lock_reading check_active deliver_online
    equal
departure-IsFreed_example = departure-IsFreed (react_all new_hub connected) 0 refl refl

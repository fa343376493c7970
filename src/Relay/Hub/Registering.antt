-- ===== src/Relay/Hub/Registering.antt =====
-- internal/relay/hub.go: Register, which waits for the session that it replaces.
use seven_mirror_server.Common.{ℕ, zero, suc, Bool, true, false, List, ltb, if◌then◌else◌}
use seven_mirror_server.Common.Result.{Result, ok, err}
use seven_mirror_server.Relay.{PeerIdentity}
use seven_mirror_server.Relay.Hub.{Attempt, Hub, attempt, registered, stale_credential, wait_for}
use seven_mirror_server.Relay.Hub.Events.{Event, react_all}

abbrev pub max_handover_attempts : ℕ
max_handover_attempts = 2

pub data RegisterError : Type 0 where
  bad_version bad_queue_size stale handover_timeout already_connected : RegisterError

-- What a round of Register does with its attempt. While it waits for a session the others go on:
-- the events that happen, and whether the session was released in time.
abbrev pub after_attempt :
    (Hub → Result RegisterError ℕ × Hub)
    → (Hub → ℕ → List Event × Bool)
    → Attempt × Hub
    → Result RegisterError ℕ × Hub
after_attempt again others (registered s, h) = (ok s, h)
after_attempt again others (stale_credential, h) = (err stale, h)
after_attempt again others (wait_for s, h) = elim (others h s).1 [
  | true ↦ again (react_all h (others h s).0)
  | false ↦ (err handover_timeout, react_all h (others h s).0)
]

-- The loop of Register, with the rounds that are left.
unfoldable pub register_loop :
    ℕ → (Hub → ℕ → List Event × Bool) → Hub → PeerIdentity → ℕ → ℕ → Result RegisterError ℕ × Hub
register_loop zero others h p version queue_size = (err already_connected, h)
register_loop (suc rounds) others h p version queue_size =
    after_attempt (λ w. register_loop rounds others w p version queue_size) others
      (attempt h p version queue_size)

unfoldable pub register_session :
    (Hub → ℕ → List Event × Bool) → Hub → PeerIdentity → ℕ → ℕ → Result RegisterError ℕ × Hub
register_session others h p version queue_size =
    if ltb version 1
    then (err bad_version, h)
    else (if ltb queue_size 1
        then (err bad_queue_size, h)
        else register_loop max_handover_attempts others h p version queue_size)

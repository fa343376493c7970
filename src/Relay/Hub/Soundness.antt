-- ===== src/Relay/Hub/Soundness.antt =====
-- Operations run in the slot of their own session only.
use seven_mirror_server.Common.{
  ℕ, ◌+◌, ◌≤◌, ◌<◌, ◌≡◌, ◌≢◌, true, none, some, List, [], ◌∷◌, ltb, ==_iff, length, length-append,
  arith, Bool-cases, Option-cases, inl, inr,
}
use seven_mirror_server.Common.Bytes.{Bytes, equal_iff, equal_refl}
use seven_mirror_server.Relay.{PeerIdentity}
use seven_mirror_server.Relay.Hub.{
  Hub, new_hub, insert_session, set_session, retire, superseded, Retirement, idle, left, same_peer,
  attempt, begin_disconnect, lock_operations, leave_slot, finish_disconnect, enter_operation,
  lock_reading, check_active, finish_operation, offer, deliver_online, wake_recipient,
  take_immediate, take_wake,
}
use seven_mirror_server.Relay.Hub.Events.{
  Event, register, disconnect, lock, leave, finish, enter, read_lock, check, end, deliver, wake,
  receive, awake, react, react_all, after_delivery,
}

pub same_peer-eq : (p q : PeerIdentity) → same_peer p q ≡ true → p ≡ q
same_peer-eq p q h =
    ground (arith, equal_iff p.workspace_id q.workspace_id, equal_iff p.device_id q.device_id)

-- What holds at all times of a session and a slot.
pub record IsSound (p : PeerIdentity) (s : ℕ) (h : Hub) : Type 0 where
  -- A slot holds registered sessions of its own peer.
  pub old : h.devices p ≡ some s → s < h.next
  pub own : h.devices p ≡ some s → (h.session s).peer ≡ p
  -- While an operation runs, the slot is the session's.
  pub running : 0 < (h.session s).running → h.devices (h.session s).peer ≡ some s
  -- The write lock excludes readers.
  pub excluded : (h.session s).drain ≢ idle → (h.session s).holding + (h.session s).running ≡ 0
  -- A session that has left its slot does not get it back.
  pub gone : (h.session s).drain ≡ left → h.devices (h.session s).peer ≢ some s
  pub released : (h.session s).released ≡ true → h.devices (h.session s).peer ≢ some s
  -- The queue keeps to its size.
  pub bounded : length (h.session s).immediate ≤ (h.session s).queue_size

lock-IsSound :
    (h : Hub) (s t : ℕ) (q : PeerIdentity) → IsSound q t h → IsSound q t (lock_operations h s)
unfolding lock_operations
lock-IsSound h s t q v = ground (arith, ==_iff t s)

finish-IsSound :
    (h : Hub) (s t : ℕ) (q : PeerIdentity) → IsSound q t h → IsSound q t (finish_disconnect h s)
unfolding finish_disconnect
finish-IsSound h s t q v = ground (arith, ==_iff t s)

enter-IsSound :
    (h : Hub) (s t : ℕ) (q : PeerIdentity) → IsSound q t h → IsSound q t (enter_operation h s)
unfolding enter_operation
enter-IsSound h s t q v = ground (arith, ==_iff t s)

read_lock-IsSound :
    (h : Hub) (s t : ℕ) (q : PeerIdentity) → IsSound q t h → IsSound q t (lock_reading h s)
unfolding lock_reading
read_lock-IsSound h s t q v = ground (arith, ==_iff t s)

check-IsSound :
    (h : Hub) (s t : ℕ) (q : PeerIdentity) → IsSound q t h → IsSound q t (check_active h s)
unfolding check_active
check-IsSound h s t q v = ground (arith, ==_iff t s)

end-IsSound :
    (h : Hub) (s t : ℕ) (q : PeerIdentity) → IsSound q t h → IsSound q t (finish_operation h s)
unfolding finish_operation
end-IsSound h s t q v = ground (arith, ==_iff t s)

disconnect-IsSound :
    (h : Hub) (s t : ℕ) (q : PeerIdentity) → IsSound q t h → IsSound q t (begin_disconnect h s).1
unfolding begin_disconnect
disconnect-IsSound h s t q v = ground (arith, ==_iff t s)

offer-IsSound :
    (h : Hub) (s : ℕ) (frame : Bytes) (t : ℕ) (q : PeerIdentity)
    → IsSound q t h
    → IsSound q t (after_delivery h (offer h s frame))
offer-IsSound h s frame t q v =
    ground (arith, ==_iff t s, length-append (h.session s).immediate (frame ∷ []))

deliver-IsSound :
    (h : Hub) (p : PeerIdentity) (frame : Bytes) (t : ℕ) (q : PeerIdentity)
    → IsSound q t h
    → IsSound q t (after_delivery h (deliver_online h p frame))
unfolding deliver_online
deliver-IsSound h p frame t q v = elim (Option-cases (h.devices p)) [
  | inl absent ↦ rw (absent, deliver_online) v
  | inr (s, found) ↦ rw (found, deliver_online) (offer-IsSound h s frame t q v)
]

wake-IsSound :
    (h : Hub) (p : PeerIdentity) (t : ℕ) (q : PeerIdentity)
    → IsSound q t h
    → IsSound q t (wake_recipient h p)
unfolding wake_recipient
wake-IsSound h p t q v = elim (Option-cases (h.devices p)) [
  | inl absent ↦ rw (absent, wake_recipient) v
  | inr (s, found) ↦ rw (found, wake_recipient) (ground (arith, ==_iff t s))
]

receive-IsSound :
    (h : Hub) (s t : ℕ) (q : PeerIdentity) → IsSound q t h → IsSound q t (take_immediate h s)
unfolding take_immediate
receive-IsSound h s t q v = ground (arith, ==_iff t s)

awake-IsSound : (h : Hub) (s t : ℕ) (q : PeerIdentity) → IsSound q t h → IsSound q t (take_wake h s)
unfolding take_wake
awake-IsSound h s t q v = ground (arith, ==_iff t s)

leave-IsSound :
    (h : Hub) (s t : ℕ) (q : PeerIdentity) → IsSound q t h → IsSound q t (leave_slot h s)
unfolding leave_slot
leave-IsSound h s t q v = ground (
  arith,
  ==_iff t s,
  ==_iff s s,
  same_peer-eq (h.session t).peer (h.session s).peer,
  equal_refl (h.session s).peer.workspace_id,
  equal_refl (h.session s).peer.device_id,
)

retire-IsSound :
    (h : Hub) (r : Retirement) (s t : ℕ) (q : PeerIdentity)
    → IsSound q t h
    → IsSound q t (set_session s (retire r (h.session s)) h)
retire-IsSound h r s t q v = ground (arith, ==_iff t s)

insert-IsSound :
    (h : Hub) (p : PeerIdentity) (version queue_size t : ℕ) (q : PeerIdentity)
    → h.devices p ≡ none
    → IsSound q t h
    → IsSound q t (insert_session h p version queue_size)
insert-IsSound h p version queue_size t q free v =
    ground (arith, ==_iff t h.next, same_peer-eq q p, same_peer-eq (h.session t).peer p)

pub register-IsSound :
    (h : Hub) (p : PeerIdentity) (version queue_size t : ℕ) (q : PeerIdentity)
    → IsSound q t h
    → IsSound q t (attempt h p version queue_size).1
unfolding attempt
register-IsSound h p version queue_size t q v = elim (Option-cases (h.devices p)) [
  | inl free ↦ rw (free, attempt) (insert-IsSound h p version queue_size t q free v)
  | inr (s, taken) ↦ elim (Bool-cases (ltb version (h.session s).credential_version)) [
    | inl older ↦ rw (taken, attempt, older) v
    | inr newer ↦ rw (taken, attempt, newer) (retire-IsSound h superseded s t q v)
  ]
]

react-IsSound :
    (h : Hub) (e : Event) (t : ℕ) (q : PeerIdentity) → IsSound q t h → IsSound q t (react h e)
unfolding react
react-IsSound h (register p version queue_size) t q v =
    register-IsSound h p version queue_size t q v
react-IsSound h (disconnect s) t q v = disconnect-IsSound h s t q v
react-IsSound h (lock s) t q v = lock-IsSound h s t q v
react-IsSound h (leave s) t q v = leave-IsSound h s t q v
react-IsSound h (finish s) t q v = finish-IsSound h s t q v
react-IsSound h (enter s) t q v = enter-IsSound h s t q v
react-IsSound h (read_lock s) t q v = read_lock-IsSound h s t q v
react-IsSound h (check s) t q v = check-IsSound h s t q v
react-IsSound h (end s) t q v = end-IsSound h s t q v
react-IsSound h (deliver p frame) t q v = deliver-IsSound h p frame t q v
react-IsSound h (wake p) t q v = wake-IsSound h p t q v
react-IsSound h (receive s) t q v = receive-IsSound h s t q v
react-IsSound h (awake s) t q v = awake-IsSound h s t q v

-- From a hub where every session is sound, whatever the goroutines do and in whatever order, every
-- session stays sound: a running operation's session holds the slot of its peer, Disconnect's lock
-- excludes operations, a session that left its slot or was released never holds it again, a
-- queue keeps to its size, and a slot holds a registered session of its own peer.
pub react_all-IsSound :
    (h : Hub) (es : List Event) (t : ℕ) (q : PeerIdentity)
    → IsSound q t h
    → IsSound q t (react_all h es)
unfolding react_all
react_all-IsSound h [] t q v = v
react_all-IsSound h (e ∷ es) t q v = react_all-IsSound (react h e) es t q (react-IsSound h e t q v)

pub new_hub-IsSound : (t : ℕ) (q : PeerIdentity) → IsSound q t new_hub
unfolding new_hub
new_hub-IsSound t q = ground arith

-- In a hub that was reached from the start by whatever the goroutines did, running operations of
-- one peer belong to one session, the one that is connected.
pub running-session :
    (es : List Event) (s t : ℕ)
    → 0 < ((react_all new_hub es).session s).running
    → 0 < ((react_all new_hub es).session t).running
    → ((react_all new_hub es).session s).peer ≡ ((react_all new_hub es).session t).peer
    → (s ≡ t) × ((react_all new_hub es).devices ((react_all new_hub es).session s).peer ≡ some s)
running-session es s t a b same =
    let h = react_all new_hub es in
    let u = react_all-IsSound new_hub es s (h.session s).peer (new_hub-IsSound s _) in
    let v = react_all-IsSound new_hub es t (h.session t).peer (new_hub-IsSound t _) in
    (ground (arith, u.running a, v.running b, same), u.running a)

-- ===== src/Relay/Hub/Draining.antt =====
-- A session that is disconnected leaves its slot once its operations return.
use seven_mirror_server.Common.{
  ℕ, zero, suc, ◌<◌, ◌≡◌, ap, true, none, List, [], ◌∷◌, ==_iff, if◌then◌else◌, arith,
}
use seven_mirror_server.Relay.{PeerIdentity}
use seven_mirror_server.Relay.Hub.{
  Hub, idle, locked, left, is_retired, same_peer, holds_slot, begin_disconnect, check_active,
  finish_operation, lock_operations, leave_slot, finish_disconnect,
}
use seven_mirror_server.Relay.Hub.Events.{
  Event, disconnect, check, end, lock, leave, finish, react, react_all,
}

-- Between Disconnect's beginning and its lock, with that many readers left.
record IsDraining (first : Hub) (s holding running : ℕ) (h : Hub) : Type 0 where
  devices : h.devices ≡ first.devices
  peer : (h.session s).peer ≡ (first.session s).peer
  retired : is_retired (h.session s) ≡ true
  free : (h.session s).drain ≡ idle
  waiting : 0 < (h.session s).disconnecting
  held : (h.session s).holding ≡ holding
  ran : (h.session s).running ≡ running

begin-IsDraining :
    (h : Hub) (s : ℕ)
    → holds_slot h s ≡ true
    → (h.session s).drain ≡ idle
    → IsDraining h s (h.session s).holding (h.session s).running (react h (disconnect s))
unfolding react begin_disconnect
begin-IsDraining h s slot free = ground (arith, ==_iff s s)

check-IsDraining :
    (first h : Hub) (s n m : ℕ)
    → IsDraining first s (suc n) m h
    → IsDraining first s n m (react h (check s))
unfolding react check_active
check-IsDraining first h s n m d = ground (arith, ==_iff s s)

end-IsDraining :
    (first h : Hub) (s n m : ℕ)
    → IsDraining first s n (suc m) h
    → IsDraining first s n m (react h (end s))
unfolding react finish_operation
end-IsDraining first h s n m d = ground (arith, ==_iff s s)

-- Every reader gives the read lock back, then Disconnect takes the lock and leaves.
unfoldable pub returns : ℕ → ℕ → ℕ → List Event
returns s zero zero = lock s ∷ leave s ∷ finish s ∷ []
returns s zero (suc m) = end s ∷ returns s zero m
returns s (suc n) m = check s ∷ returns s n m

abbrev pub departure : Hub → ℕ → List Event
departure h s = disconnect s ∷ returns s (h.session s).holding (h.session s).running

-- After Disconnect: the slot of the session is free, the others are as they were.
pub record IsFreed (first : Hub) (s : ℕ) (h : Hub) : Type 0 where
  pub slots :
      (q : PeerIdentity)
      → h.devices q ≡ (if same_peer q (first.session s).peer then none else first.devices q)
  pub released : (h.session s).released ≡ true
  pub retired : is_retired (h.session s) ≡ true

record HasLocked (first : Hub) (s : ℕ) (h : Hub) : Type 0 where
  devices : h.devices ≡ first.devices
  peer : (h.session s).peer ≡ (first.session s).peer
  retired : is_retired (h.session s) ≡ true
  drain : (h.session s).drain ≡ locked

record HasLeft (first : Hub) (s : ℕ) (h : Hub) : Type 0 where
  slots :
      (q : PeerIdentity)
      → h.devices q ≡ (if same_peer q (first.session s).peer then none else first.devices q)
  retired : is_retired (h.session s) ≡ true
  drain : (h.session s).drain ≡ left

lock-HasLocked :
    (first h : Hub) (s : ℕ) → IsDraining first s 0 0 h → HasLocked first s (react h (lock s))
unfolding react lock_operations
lock-HasLocked first h s d = ground (arith, ==_iff s s)

leave-HasLeft :
    (first h : Hub) (s : ℕ)
    → holds_slot first s ≡ true
    → HasLocked first s h
    → HasLeft first s (react h (leave s))
unfolding react leave_slot
leave-HasLeft first h s slot d =
    let kept : holds_slot h s ≡ true = rw (d.devices, d.peer) slot in
    record {
      slots = λ q. ground (arith, kept, d.drain, d.peer, ap (λ f. f q) d.devices);
      retired = ground (arith, ==_iff s s, kept);
      drain = ground (arith, ==_iff s s, kept);
    }

finish-IsFreed : (first h : Hub) (s : ℕ) → HasLeft first s h → IsFreed first s (react h (finish s))
unfolding react finish_disconnect
finish-IsFreed first h s d = record {
  slots = λ q. ground (arith, d.slots q, d.drain);
  released = ground (arith, ==_iff s s, d.drain);
  retired = ground (arith, ==_iff s s, d.drain, d.retired);
}

returns-IsFreed :
    (first h : Hub) (s n m : ℕ)
    → holds_slot first s ≡ true
    → IsDraining first s n m h
    → IsFreed first s (react_all h (returns s n m))
unfolding returns react_all
returns-IsFreed first h s zero zero slot d =
    finish-IsFreed first _ s (leave-HasLeft first _ s slot (lock-HasLocked first h s d))
returns-IsFreed first h s zero (suc m) slot d =
    returns-IsFreed first (react h (end s)) s zero m slot (end-IsDraining first h s zero m d)
returns-IsFreed first h s (suc n) m slot d =
    returns-IsFreed first (react h (check s)) s n m slot (check-IsDraining first h s n m d)

-- A session that holds its slot, and that no other Disconnect has locked, can always be
-- disconnected: once the operations that hold its read lock have given it back, Disconnect gets
-- the write lock and leaves the slot free, with the slots of all other peers as they were.
pub departure-IsFreed :
    (h : Hub) (s : ℕ)
    → holds_slot h s ≡ true
    → (h.session s).drain ≡ idle
    → IsFreed h s (react_all h (departure h s))
unfolding react_all
departure-IsFreed h s slot free = returns-IsFreed h _ s _ _ slot (begin-IsDraining h s slot free)

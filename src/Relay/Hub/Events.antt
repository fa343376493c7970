-- ===== src/Relay/Hub/Events.antt =====
-- internal/relay/hub.go: what the goroutines do to the hub, one event at a time.
use seven_mirror_server.Common.{ℕ, List, [], ◌∷◌}
use seven_mirror_server.Common.Bytes.{Bytes}
use seven_mirror_server.Common.Result.{Result, ok, err}
use seven_mirror_server.Relay.{PeerIdentity}
use seven_mirror_server.Relay.Hub.{
  Error, Hub, attempt, begin_disconnect, check_active, deliver_online, enter_operation,
  finish_disconnect, finish_operation, leave_slot, lock_operations, lock_reading, take_immediate,
  take_wake, wake_recipient,
}

pub data Event : Type 0 where
  register : PeerIdentity → ℕ → ℕ → Event
  disconnect lock leave finish : ℕ → Event
  enter read_lock check end : ℕ → Event
  deliver : PeerIdentity → Bytes → Event
  wake : PeerIdentity → Event
  receive awake : ℕ → Event

abbrev pub after_delivery : Hub → Result Error Hub → Hub
after_delivery h (ok next) = next
after_delivery h (err e) = h

unfoldable pub react : Hub → Event → Hub
react h (register p version queue_size) = (attempt h p version queue_size).1
react h (disconnect s) = (begin_disconnect h s).1
react h (lock s) = lock_operations h s
react h (leave s) = leave_slot h s
react h (finish s) = finish_disconnect h s
react h (enter s) = enter_operation h s
react h (read_lock s) = lock_reading h s
react h (check s) = check_active h s
react h (end s) = finish_operation h s
react h (deliver p frame) = after_delivery h (deliver_online h p frame)
react h (wake p) = wake_recipient h p
react h (receive s) = take_immediate h s
react h (awake s) = take_wake h s

unfoldable pub react_all : Hub → List Event → Hub
react_all h [] = h
react_all h (e ∷ es) = react_all (react h e) es

-- ===== src/Relay/Hub.antt =====
-- internal/relay/hub.go: the slots of the connected devices and the sessions that hold them.
-- A session is known by a number, which stands for its pointer. What Go does between two
-- acquisitions of the Hub's lock is one event; the events of all goroutines form one sequence, and
-- an event that must wait, for the session's operation lock, changes nothing until it can happen.
-- Channels that are closed once are flags, and the session's context is cancelled exactly when it
-- is retired.
pub mod Events
pub mod Registering
pub mod Soundness
pub mod Registration
pub mod Draining
pub mod Examples
use seven_mirror_server.Common.{
  ℕ, zero, suc, ◌+◌, ◌-◌, Bool, true, false, ◌&&◌, ◌||◌, not, Option, none, some, List, [], ◌∷◌,
  ◌++◌, ltb, ◌==◌, length, if◌then◌else◌,
}
use seven_mirror_server.Common.Bytes.{Bytes, equal}
use seven_mirror_server.Common.Result.{Result, ok, err}
use seven_mirror_server.Relay.{PeerIdentity}

-- `sessionRetirement`
pub data Retirement : Type 0 where
  revoked superseded : Retirement

-- Who holds the write lock of `operations` in Disconnect: nobody, a call that has yet to look at
-- the slot, or one that has left the slot.
pub data Drain : Type 0 where
  idle locked left : Drain

-- A `deviceSession`, with the calls that are at work on it: operations that passed the first test
-- of the context, that hold the read lock, and that run, and Disconnects that wait for the lock.
pub record Session : Type 0 where
  pub peer : PeerIdentity
  pub credential_version : ℕ
  pub queue_size : ℕ
  pub immediate : List Bytes
  pub durable_wake : Bool
  pub retirement : Option Retirement
  pub released : Bool
  pub entering : ℕ
  pub holding : ℕ
  pub running : ℕ
  pub disconnecting : ℕ
  pub drain : Drain

pub record Hub : Type 0 where
  pub devices : PeerIdentity → Option ℕ
  pub session : ℕ → Session
  pub next : ℕ

abbrev pub same_peer : PeerIdentity → PeerIdentity → Bool
same_peer p q = equal p.workspace_id q.workspace_id && equal p.device_id q.device_id

abbrev pub is_retired : Session → Bool
is_retired x = elim x.retirement [ none ↦ false | some r ↦ true ]

abbrev pub is_idle : Drain → Bool
is_idle idle = true
is_idle locked = false
is_idle left = false

abbrev pub is_locked : Drain → Bool
is_locked locked = true
is_locked idle = false
is_locked left = false

abbrev pub is_left : Drain → Bool
is_left left = true
is_left idle = false
is_left locked = false

abbrev pub new_device_session : PeerIdentity → ℕ → ℕ → Session
new_device_session peer credential_version queue_size = record {
  peer = peer;
  credential_version = credential_version;
  queue_size = queue_size;
  immediate = [];
  durable_wake = false;
  retirement = none;
  released = false;
  entering = 0;
  holding = 0;
  running = 0;
  disconnecting = 0;
  drain = idle;
}

-- Only the first retirement counts.
abbrev pub retire : Retirement → Session → Session
retire reason x = record x {
  retirement = elim x.retirement [ none ↦ some reason | some r ↦ some r ];
}

abbrev pub set_session : ℕ → Session → Hub → Hub
set_session s x h = record h { session = λ t. if t == s then x else h.session t }

abbrev pub set_slot : PeerIdentity → Option ℕ → Hub → Hub
set_slot p slot h = record h { devices = λ q. if same_peer q p then slot else h.devices q }

-- Whether a slot holds the session.
abbrev pub is_slot : Option ℕ → ℕ → Bool
is_slot none s = false
is_slot (some t) s = t == s

abbrev pub holds_slot : Hub → ℕ → Bool
holds_slot h s = is_slot (h.devices (h.session s).peer) s

unfoldable pub new_hub : Hub
new_hub = record {
  devices = λ p. none;
  session = λ s. new_device_session (record { workspace_id = []; device_id = [] }) 0 0;
  next = 0;
}

-- What one round of Register finds.
pub data Attempt : Type 0 where
  registered : ℕ → Attempt
  stale_credential : Attempt
  wait_for : ℕ → Attempt

abbrev pub insert_session : Hub → PeerIdentity → ℕ → ℕ → Hub
insert_session h p version queue_size =
    record (set_slot p (some h.next)
      (set_session h.next (new_device_session p version queue_size) h)) { next = h.next + 1 }

unfoldable pub attempt : Hub → PeerIdentity → ℕ → ℕ → Attempt × Hub
attempt h p version queue_size = elim (h.devices p) [
  | none ↦ (registered h.next, insert_session h p version queue_size)
  | some s ↦
      if ltb version (h.session s).credential_version
      then (stale_credential, h)
      else (wait_for s, set_session s (retire superseded (h.session s)) h)
]

-- Disconnect up to the operation lock: false is returned at once for a session that has lost its
-- slot.
unfoldable pub begin_disconnect : Hub → ℕ → Bool × Hub
begin_disconnect h s =
    if holds_slot h s
    then (
      not (is_retired (h.session s)),
      set_session s
          (record (retire revoked (h.session s)) {
            disconnecting = (h.session s).disconnecting + 1;
          })
          h,
    )
    else (false, h)

-- `operations.Lock` succeeds when no operation holds the read lock.
unfoldable pub lock_operations : Hub → ℕ → Hub
lock_operations h s =
    let x = h.session s in
    if ltb 0 x.disconnecting && is_idle x.drain && x.holding == 0 && x.running == 0
    then set_session s (record x { drain = locked }) h
    else h

-- The slot is given up, if it is still the session's.
unfoldable pub leave_slot : Hub → ℕ → Hub
leave_slot h s =
    let x = h.session s in
    if is_locked x.drain
    then (let freed = if holds_slot h s then set_slot x.peer none h else h in
        set_session s (record x { drain = left }) freed)
    else h

-- `markReleased`, and the lock is given back.
unfoldable pub finish_disconnect : Hub → ℕ → Hub
finish_disconnect h s =
    let x = h.session s in
    if is_left x.drain
    then set_session s
        (record x { released = true; drain = idle; disconnecting = x.disconnecting - 1 }) h
    else h

-- beginOperation up to `operations.RLock`.
unfoldable pub enter_operation : Hub → ℕ → Hub
enter_operation h s =
    let x = h.session s in
    if is_retired x then h else set_session s (record x { entering = x.entering + 1 }) h

unfoldable pub lock_reading : Hub → ℕ → Hub
lock_reading h s =
    let x = h.session s in
    if ltb 0 x.entering && is_idle x.drain
    then set_session s (record x { entering = x.entering - 1; holding = x.holding + 1 }) h
    else h

-- The test under both locks: the operation runs, or gives the read lock back.
unfoldable pub check_active : Hub → ℕ → Hub
check_active h s =
    let x = h.session s in
    if ltb 0 x.holding
    then (if holds_slot h s && not (is_retired x)
        then set_session s (record x { holding = x.holding - 1; running = x.running + 1 }) h
        else set_session s (record x { holding = x.holding - 1 }) h)
    else h

-- The function that beginOperation returns.
unfoldable pub finish_operation : Hub → ℕ → Hub
finish_operation h s =
    let x = h.session s in
    if ltb 0 x.running then set_session s (record x { running = x.running - 1 }) h else h

pub data Error : Type 0 where
  recipient_offline recipient_busy : Error

-- RouteOnline within its operation, on the recipient's slot.
abbrev pub offer : Hub → ℕ → Bytes → Result Error Hub
offer h s frame =
    let x = h.session s in
    if is_retired x
    then err recipient_offline
    else (if ltb (length x.immediate) x.queue_size
        then ok (set_session s (record x { immediate = x.immediate ++ frame ∷ [] }) h)
        else err recipient_busy)

unfoldable pub deliver_online : Hub → PeerIdentity → Bytes → Result Error Hub
deliver_online h recipient frame = elim (h.devices recipient) [
  | none ↦ err recipient_offline
  | some s ↦ offer h s frame
]

-- The end of RouteDurable.
unfoldable pub wake_recipient : Hub → PeerIdentity → Hub
wake_recipient h recipient = elim (h.devices recipient) [
  | none ↦ h
  | some s ↦
      let x = h.session s in
      if is_retired x then h else set_session s (record x { durable_wake = true }) h
]

-- The connection takes a frame, or the wake-up, off its channel.
unfoldable pub take_immediate : Hub → ℕ → Hub
take_immediate h s = elim (h.session s).immediate [
  | [] ↦ h
  | frame ∷ rest ↦ set_session s (record (h.session s) { immediate = rest }) h
]

unfoldable pub take_wake : Hub → ℕ → Hub
take_wake h s = set_session s (record (h.session s) { durable_wake = false }) h

unfoldable pub is_connected : Hub → PeerIdentity → Bool
is_connected h p = elim (h.devices p) [ none ↦ false | some s ↦ true ]

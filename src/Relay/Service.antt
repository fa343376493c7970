-- ===== src/Relay/Service.antt =====
-- internal/relay/hub.go and internal/relay/websocket.go: what a client message does. The hub's
-- sessions are Relay.Hub; the deliveries are one Recipient of Delivery for each peer. An operation
-- begins where beginOperation finds the session active; what other goroutines do to the hub while
-- the operation runs is an argument. Whether a recipient is authorized is the authorizer's answer.
pub mod Isolation
pub mod Examples
use seven_mirror_server.Common.{
  ℕ, zero, suc, ◌+◌, ◌*◌, Bool, true, false, ◌&&◌, not, leb, length, ◌==◌, if◌then◌else◌, [], ◌∷◌,
}
use seven_mirror_server.Common.Bytes.{Bytes, equal}
use seven_mirror_server.Common.Result.{Result, ok, err, ◌>>=◌, ◌>>◌, refuse_if, wrap_error}
use seven_mirror_server.Protocol.RoutingHeader.{Header}
use seven_mirror_server.Protocol.RelayDelivery
use seven_mirror_server.Protocol.RelayDelivery.{
  ClientMessage, ClientMessageKind, decode_client_message, envelope_online, envelope_durable,
  resume, acknowledge,
}
use seven_mirror_server.Delivery
use seven_mirror_server.Delivery.{
  Recipient, DeliveryBatch, append_delivery, resume_deliveries, read_deliveries,
  acknowledge_delivery,
}
use seven_mirror_server.Relay
use seven_mirror_server.Relay.{PeerIdentity, validate_routed_envelope}
use seven_mirror_server.Relay.Hub
use seven_mirror_server.Relay.Hub.{
  Hub, same_peer, is_retired, holds_slot, deliver_online, wake_recipient,
}

abbrev pub delivery_batch_size : ℕ
delivery_batch_size = 64

abbrev pub Deliveries : Type 0
Deliveries = PeerIdentity → Recipient

-- `RecipientAuthorizer`: none where the lookup fails.
abbrev pub Authorizer : Type 0
Authorizer = PeerIdentity → Result (Unit {0}) Bool

pub data Error : Type 0 where
  bad_envelope : Relay.Error → Error
  bad_message : RelayDelivery.Error → Error
  session_offline failed_lookup recipient_unauthorized already_expired : Error
  undelivered : Hub.Error → Error
  bad_delivery : Delivery.Error → Error

-- The test of beginOperation.
abbrev pub is_active : Hub → ℕ → Bool
is_active h s = holds_slot h s && not (is_retired (h.session s))

abbrev pub set_recipient : PeerIdentity → Recipient → Deliveries → Deliveries
set_recipient p r d = λ q. if same_peer q p then r else d q

-- `time.UnixMilli`, in nanoseconds since Go's zero time.
abbrev pub from_unix_milli : ℕ → ℕ
from_unix_milli ms = (62135596800000 + ms) * 1000000

unfoldable pub route_online : (Hub → Hub) → Hub → ℕ → Bytes → Result Error Hub
route_online others h s frame = do
  (recipient, header) ← wrap_error bad_envelope (validate_routed_envelope (h.session s).peer frame)
  refuse_if (not (is_active h s)) session_offline
  wrap_error undelivered (deliver_online (others h) recipient frame)

-- The part of RouteDurable between the operation's begin and the wake-up.
unfoldable pub commit_durable :
    Authorizer → Deliveries → PeerIdentity → Header → Bytes → ℕ → Result Error Deliveries
commit_durable authorizer d recipient header frame now = do
  authorized ← wrap_error (λ e. failed_lookup) (authorizer recipient)
  refuse_if (not authorized) recipient_unauthorized
  refuse_if (leb (from_unix_milli header.expires_at_unix_ms) now) already_expired
  (id, r) ←
      wrap_error bad_delivery
        (append_delivery (d recipient) frame (from_unix_milli header.expires_at_unix_ms) now)
  ok (set_recipient recipient r d)

unfoldable pub route_durable :
    Authorizer → (Hub → Hub) → Hub → ℕ → Deliveries → Bytes → ℕ → Result Error (Hub × Deliveries)
route_durable authorizer others h s d frame now = do
  (recipient, header) ← wrap_error bad_envelope (validate_routed_envelope (h.session s).peer frame)
  refuse_if (not (is_active h s)) session_offline
  committed ← commit_durable authorizer d recipient header frame now
  ok (wake_recipient (others h) recipient, committed)

-- ResumeDeliveries and ReadDeliveries of a session, on its own peer's deliveries.
unfoldable pub resume_session :
    Hub → ℕ → Recipient → ℕ → ℕ → Result Error (DeliveryBatch × Recipient)
resume_session h s r cursor now = do
  refuse_if (not (is_active h s)) session_offline
  wrap_error bad_delivery (resume_deliveries r cursor now delivery_batch_size)

unfoldable pub read_session : Hub → ℕ → Recipient → ℕ → ℕ → Result Error (DeliveryBatch × Recipient)
read_session h s r cursor now = do
  refuse_if (not (is_active h s)) session_offline
  wrap_error bad_delivery (read_deliveries r cursor now delivery_batch_size)

unfoldable pub acknowledge_session : Hub → ℕ → Deliveries → ℕ → Result Error Deliveries
acknowledge_session h s d cursor = do
  refuse_if (not (is_active h s)) session_offline
  r ← wrap_error bad_delivery (acknowledge_delivery (d (h.session s).peer) cursor)
  ok (set_recipient (h.session s).peer r d)

abbrev pub heartbeat_request : Bytes
heartbeat_request = 83 ∷ 78 ∷ 72 ∷ 49 ∷ []

-- What the reader hands to the connection's writer.
pub data Signal : Type 0 where
  no_signal heartbeat : Signal
  resume_request : ℕ → Signal

pub record Served : Type 0 where
  pub signal : Signal
  pub hub : Hub
  pub deliveries : Deliveries

abbrev after_online : Deliveries → Result Error Hub → Result Error Served
after_online d result = do h ← result; ok (record { signal = no_signal; hub = h; deliveries = d })

abbrev after_durable : Result Error (Hub × Deliveries) → Result Error Served
after_durable result = do
  (h, d) ← result
  ok (record { signal = no_signal; hub = h; deliveries = d })

abbrev after_acknowledgement : Hub → Result Error Deliveries → Result Error Served
after_acknowledgement h result = do
  d ← result
  ok (record { signal = no_signal; hub = h; deliveries = d })

-- `switch message.Kind`
abbrev pub dispatch :
    Authorizer
    → (Hub → Hub)
    → Hub
    → ℕ
    → Deliveries
    → ℕ
    → ClientMessageKind
    → ℕ
    → Bytes
    → Result Error Served
dispatch authorizer others h s d now envelope_online cursor envelope =
    after_online d (route_online others h s envelope)
dispatch authorizer others h s d now envelope_durable cursor envelope =
    after_durable (route_durable authorizer others h s d envelope now)
dispatch authorizer others h s d now resume cursor envelope =
    ok (record { signal = resume_request cursor; hub = h; deliveries = d })
dispatch authorizer others h s d now acknowledge cursor envelope =
    after_acknowledgement h (acknowledge_session h s d cursor)

-- One round of the reader: what it read from the socket, and what it does with it.
unfoldable pub serve_message :
    Authorizer → (Hub → Hub) → Hub → ℕ → Deliveries → ℕ → Bytes → Result Error Served
serve_message authorizer others h s d now encoded =
    if equal encoded heartbeat_request
    then ok (record { signal = heartbeat; hub = h; deliveries = d })
    else (do
      m ← wrap_error bad_message (decode_client_message encoded)
      dispatch authorizer others h s d now m.kind m.cursor m.envelope)

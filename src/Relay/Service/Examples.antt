-- ===== src/Relay/Service/Examples.antt =====
-- A device of the sample frame sends it to a peer that is offline.
use seven_mirror_server.Common.{ℕ, ◌≡◌, refl, true, false, none, some, [], ◌∷◌, ◌++◌, if◌then◌else◌}
use seven_mirror_server.Common.Bytes.{Bytes, slice, equal, all_zero}
use seven_mirror_server.Common.Bytes.BigEndian.{get}
use seven_mirror_server.Common.Result.{ok, err}
use seven_mirror_server.Protocol.RoutingHeader
use seven_mirror_server.Protocol.EnvelopeFrame
use seven_mirror_server.Protocol.RelayDelivery.{
  decode_client_message, durable_submission_magic, durable_message,
}
use seven_mirror_server.Protocol.Examples.{sample_header, sample_frame_bytes}
use seven_mirror_server.Delivery.{
  Recipient, append_delivery, ensure_delivery_state, insert_delivery, enforce_delivery_capacity,
  compact_expired_deliveries, max_id, total_bytes, has_id,
}
use seven_mirror_server.Relay.{PeerIdentity, validate_routed_envelope}
use seven_mirror_server.Relay.Routing.{recipient_in}
use seven_mirror_server.Relay.Examples.{sender}
use seven_mirror_server.Relay.Hub.{Hub, new_hub, attempt, wake_recipient, same_peer}
use seven_mirror_server.Relay.Service.{
  Deliveries, Served, no_signal, serve_message, route_durable, commit_durable, from_unix_milli,
  recipient_unauthorized,
}
use seven_mirror_server.Relay.Service.Isolation.{IsAllowed, serve_message-IsAllowed}

abbrev recipient : PeerIdentity
recipient = recipient_in sender sample_header

abbrev pub connected : Hub
connected = (attempt new_hub sender 1 16).1

abbrev empty : Deliveries
empty = λ p. record { device_row = true; mailbox = none }

abbrev submission : Bytes
submission = durable_submission_magic ++ sample_frame_bytes

-- Half of the frame's lifetime has passed.
abbrev pub at_noon : ℕ
at_noon = from_unix_milli 31000

refused :
    serve_message (λ p. ok false) (λ h. h) connected 0 empty at_noon submission
    ≡ err recipient_unauthorized
unfolding serve_message decode_client_message durable_message route_durable commit_durable
    validate_routed_envelope EnvelopeFrame.decode EnvelopeFrame.validate EnvelopeFrame.parse
    RoutingHeader.decode RoutingHeader.validate RoutingHeader.parse slice get equal all_zero attempt
    new_hub
refused = refl

-- The frame is the recipient's first delivery.
abbrev pub stored_recipient : Recipient
stored_recipient = record {
  device_row = true;
  mailbox = some (record {
    next_delivery_id = 2;
    acknowledged_delivery_id = 0;
    unavailable_through_id = 0;
    rows =
        record {
          delivery_id = 1;
          envelope = sample_frame_bytes;
          expires_at_ms = 62135596861000;
          created_at_ms = 62135596831000;
        }
        ∷ [];
  });
}

abbrev served : Served
served = record {
  signal = no_signal;
  hub = connected;
  deliveries = λ p. if same_peer p recipient then stored_recipient else empty p;
}

sent : serve_message (λ p. ok true) (λ h. h) connected 0 empty at_noon submission ≡ ok served
unfolding serve_message decode_client_message durable_message route_durable commit_durable
    validate_routed_envelope EnvelopeFrame.decode EnvelopeFrame.validate EnvelopeFrame.parse
    RoutingHeader.decode RoutingHeader.validate RoutingHeader.parse slice get equal all_zero attempt
    new_hub wake_recipient append_delivery ensure_delivery_state insert_delivery
    enforce_delivery_capacity compact_expired_deliveries max_id total_bytes has_id
sent = refl

serve_message-IsAllowed_example :
    IsAllowed
      (λ p. ok true)
      sender
      at_noon
      (empty recipient)
      (served.deliveries recipient)
      recipient
unfolding attempt new_hub
serve_message-IsAllowed_example =
    serve_message-IsAllowed (λ p. ok true) (λ h. h) connected 0 empty at_noon submission served
      recipient sent

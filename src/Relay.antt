-- ===== src/Relay.antt =====
-- internal/relay/hub.go: how an envelope that a connection sent finds its recipient.
pub mod Routing
pub mod Hub
pub mod Service
pub mod Writer
pub mod Examples
use seven_mirror_server.Common.{Bool, ◌||◌, not}
use seven_mirror_server.Common.Result.{Result, ok, err, ◌>>=◌, ◌>>◌, refuse_if, wrap_error}
use seven_mirror_server.Common.Bytes.{Bytes, slice, equal}
use seven_mirror_server.Protocol.RoutingHeader
use seven_mirror_server.Protocol.RoutingHeader.{Header}
use seven_mirror_server.Protocol.EnvelopeFrame

pub record PeerIdentity : Type 0 where
  pub workspace_id : Bytes
  pub device_id : Bytes

pub data Error : Type 0 where
  bad_frame : EnvelopeFrame.Error → Error
  sender_mismatch : Error
  bad_header : RoutingHeader.Error → Error

-- Whether a routing header names another sender than the connection's.
abbrev pub is_other_sender : PeerIdentity → Bytes → Bool
is_other_sender sender routing_header =
    not (equal (slice 8 24 routing_header) sender.workspace_id)
    || not (equal (slice 24 40 routing_header) sender.device_id)

unfoldable pub validate_routed_envelope :
    PeerIdentity → Bytes → Result Error (PeerIdentity × Header)
validate_routed_envelope sender encoded_frame = do
  frame ← wrap_error bad_frame (EnvelopeFrame.decode encoded_frame)
  refuse_if (is_other_sender sender frame.routing_header) sender_mismatch
  header ← wrap_error bad_header (RoutingHeader.decode frame.routing_header)
  let recipient : PeerIdentity = record {
    workspace_id = header.workspace_id;
    device_id = header.recipient_device_id;
  }
  ok (recipient, header)

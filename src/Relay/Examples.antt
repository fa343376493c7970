-- ===== src/Relay/Examples.antt =====
-- The sample frame on the connection of its sender, and on another one.
use seven_mirror_server.Common.{◌≡◌, refl, replicate}
use seven_mirror_server.Common.Result.{ok, err}
use seven_mirror_server.Common.Bytes.{slice, equal, all_zero}
use seven_mirror_server.Common.Bytes.BigEndian.{get}
use seven_mirror_server.Protocol.RoutingHeader
use seven_mirror_server.Protocol.EnvelopeFrame
use seven_mirror_server.Protocol.Examples.{sample_header, sample_frame_bytes}
use seven_mirror_server.Relay.{PeerIdentity, sender_mismatch, validate_routed_envelope}
use seven_mirror_server.Relay.Routing.{IsFrom, recipient_in, validate_routed_envelope_iff}

abbrev pub sender : PeerIdentity
sender = record { workspace_id = replicate 16 1; device_id = replicate 16 2 }

routed :
    validate_routed_envelope sender sample_frame_bytes
    ≡ ok (recipient_in sender sample_header, sample_header)
unfolding validate_routed_envelope EnvelopeFrame.decode EnvelopeFrame.validate EnvelopeFrame.parse
    RoutingHeader.decode RoutingHeader.validate RoutingHeader.parse slice get equal all_zero
routed = refl

mismatched :
    validate_routed_envelope
      (record { workspace_id = replicate 16 1; device_id = replicate 16 3 })
      sample_frame_bytes
    ≡ err sender_mismatch
unfolding validate_routed_envelope EnvelopeFrame.decode EnvelopeFrame.validate EnvelopeFrame.parse
    RoutingHeader.decode RoutingHeader.validate RoutingHeader.parse slice get equal all_zero
mismatched = refl

validate_routed_envelope_iff_example :
    IsFrom sender sample_frame_bytes sample_header
    × (recipient_in sender sample_header ≡ recipient_in sender sample_header)
validate_routed_envelope_iff_example =
    (validate_routed_envelope_iff sender sample_frame_bytes (recipient_in sender sample_header)
        sample_header).0
      routed

-- ===== src/Relay/Routing.antt =====
-- Which envelopes are routed, and to whom.
use seven_mirror_server.Common.{◌≡◌, ◌↔◌, ap, false, arith}
use seven_mirror_server.Common.Result.{ok}
use seven_mirror_server.Common.Bytes.{Bytes, slice, equal_iff}
use seven_mirror_server.Protocol.RoutingHeader
use seven_mirror_server.Protocol.RoutingHeader.{Header, parse}
use seven_mirror_server.Protocol.RoutingHeader.RoundTrip.{decode-Accepted}
use seven_mirror_server.Protocol.EnvelopeFrame
use seven_mirror_server.Protocol.EnvelopeFrame.{Frame}
use seven_mirror_server.Relay.{PeerIdentity, is_other_sender, validate_routed_envelope}

abbrev pub recipient_in : PeerIdentity → Header → PeerIdentity
recipient_in sender h = record {
  workspace_id = sender.workspace_id;
  device_id = h.recipient_device_id;
}

-- An envelope of the sender, with its header.
pub record IsFrom (sender : PeerIdentity) (bs : Bytes) (h : Header) : Type 0 where
  pub frame : Frame
  pub framed : EnvelopeFrame.decode bs ≡ ok frame
  pub header : RoutingHeader.decode frame.routing_header ≡ ok h
  pub workspace : h.workspace_id ≡ sender.workspace_id
  pub device : h.sender_device_id ≡ sender.device_id

checked :
    (sender : PeerIdentity) (bs : Bytes) (r : PeerIdentity) (h : Header)
    → validate_routed_envelope sender bs ≡ ok (r, h)
    → (f : Frame) × (EnvelopeFrame.decode bs ≡ ok f)
      × (RoutingHeader.decode f.routing_header ≡ ok h)
      × (is_other_sender sender f.routing_header ≡ false)
      × (r.workspace_id ≡ h.workspace_id)
      × (r.device_id ≡ h.recipient_device_id)
unfolding validate_routed_envelope
checked sender bs r h e = ground arith

-- The header's fields are the bytes that the sender was compared with.
header-fields :
    (bs : Bytes) (h : Header)
    → RoutingHeader.decode bs ≡ ok h
    → (h.workspace_id ≡ slice 8 24 bs) × (h.sender_device_id ≡ slice 24 40 bs)
unfolding parse
header-fields bs h e =
    let a = decode-Accepted bs h e in
    (ap (λ k. k.workspace_id) a.header, ap (λ k. k.sender_device_id) a.header)

-- An envelope is routed exactly when its frame and its header decode and the header names the
-- connection's workspace and device as the sender; the recipient is then the header's recipient in
-- the sender's own workspace.
pub validate_routed_envelope_iff :
    (sender : PeerIdentity) (bs : Bytes) (r : PeerIdentity) (h : Header)
    → (validate_routed_envelope sender bs ≡ ok (r, h))
      ↔ (IsFrom sender bs h × (r ≡ recipient_in sender h))
unfolding validate_routed_envelope
validate_routed_envelope_iff sender bs r h = (
  λ e.
      let (f, framed, header, same, workspace, device) = checked sender bs r h e in
      let (w, i) = header-fields f.routing_header h header in
      let from_workspace : h.workspace_id ≡ sender.workspace_id =
        ground (arith, same, w, equal_iff (slice 8 24 f.routing_header) sender.workspace_id) in
      (
        record {
          frame = f;
          framed = framed;
          header = header;
          workspace = from_workspace;
          device =
              ground (arith, same, i, equal_iff (slice 24 40 f.routing_header) sender.device_id);
        },
        ground (arith, workspace, device, from_workspace),
      ),
  λ (from, to).
      let (w, i) = header-fields from.frame.routing_header h from.header in
      ground (
        arith,
        to,
        from.framed,
        from.header,
        from.workspace,
        from.device,
        w,
        i,
        equal_iff (slice 8 24 from.frame.routing_header) sender.workspace_id,
        equal_iff (slice 24 40 from.frame.routing_header) sender.device_id,
      ),
)

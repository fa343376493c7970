-- ===== src/Protocol/RelayDelivery/RoundTrip.antt =====
-- What a client encodes, the relay decodes.
use seven_mirror_server.Common.{
  ℕ, ◌+◌, ◌≤◌, ◌<◌, ◌^◌, ◌≡◌, refl, subst, Bool, true, false, arith, length, List, [], ◌⊎◌,
}
use seven_mirror_server.Common.Result.{Result, ok, ◌>>◌, wrap_error, wrap_error-eq-ok}
use seven_mirror_server.Common.Bytes.{Bytes, slice, make, equal, equal_iff}
use seven_mirror_server.Common.Bytes.Layout.{
  Field, Adjacent, Reads, write_all, Reads-write_all, length-write_all,
}
use seven_mirror_server.Common.Bytes.BigEndian.{length-put, get-put}
use seven_mirror_server.Protocol.RoutingHeader.{max_int64}
use seven_mirror_server.Protocol.EnvelopeFrame
use seven_mirror_server.Protocol.EnvelopeFrame.RoundTrip.{Accepted, decode-Accepted}
use seven_mirror_server.Protocol.RelayDelivery.{
  ClientMessage, ClientMessageKind, envelope_online, envelope_durable, resume, acknowledge, Error,
  bad_envelope, online_message, durable_message, control_message, decode_client_message,
  encode_durable_submission, encode_resume, encode_acknowledgement, encode_control, control_fields,
  submission_fields, resume_magic, ack_magic, control_size, submission_prefix_size,
}

-- The bytes that a client sends for a message.
abbrev pub encode_client_message : ClientMessage → Result Error Bytes
encode_client_message m = elim m.kind [
  | envelope_online ↦ wrap_error bad_envelope (EnvelopeFrame.decode m.envelope) >> ok m.envelope
  | envelope_durable ↦ encode_durable_submission m.envelope
  | resume ↦ encode_resume m.cursor
  | acknowledge ↦ encode_acknowledgement m.cursor
]

pub control-Adjacent :
    (magic : Bytes) (cursor : ℕ)
    → length magic ≡ 4
    → Adjacent 0 (control_fields magic cursor) control_size
unfolding control_fields
control-Adjacent magic cursor h = omega (arith, length-put)

pub submission-Adjacent :
    (envelope : Bytes)
    → Adjacent 0 (submission_fields envelope) (submission_prefix_size + length envelope)
unfolding submission_fields
submission-Adjacent envelope = omega arith

resume-Reads :
    (bs : Bytes) (cursor : ℕ)
    → length bs ≡ control_size
    → Reads bs (control_fields resume_magic cursor)
    → cursor < 2 ^ 63
    → decode_client_message bs ≡ ok (record { kind = resume; cursor = cursor; envelope = [] })
unfolding decode_client_message control_message control_fields
resume-Reads bs cursor size r h =
    ground (arith, (equal_iff (slice 0 4 bs) resume_magic).1 r.0, get-put 8 cursor (omega arith))

ack-Reads :
    (bs : Bytes) (cursor : ℕ)
    → length bs ≡ control_size
    → Reads bs (control_fields ack_magic cursor)
    → 0 < cursor
    → cursor < 2 ^ 63
    → decode_client_message bs ≡ ok (record { kind = acknowledge; cursor = cursor; envelope = [] })
unfolding decode_client_message control_message control_fields equal
ack-Reads bs cursor size r p h = ground (
  arith,
  (equal_iff (slice 0 4 bs) ack_magic).1 r.0,
  (equal_iff (slice 0 4 bs) resume_magic).0,
  get-put 8 cursor (omega arith),
)

online-Accepted :
    (bs : Bytes) (f : EnvelopeFrame.Frame)
    → EnvelopeFrame.decode bs ≡ ok f
    → Accepted bs f
    → decode_client_message bs ≡ ok (record { kind = envelope_online; cursor = 0; envelope = bs })
unfolding decode_client_message online_message
online-Accepted bs f e a = ground (arith, a.lower, a.marked)

durable-Reads :
    (bs envelope : Bytes) (f : EnvelopeFrame.Frame)
    → length bs ≡ submission_prefix_size + length envelope
    → Reads bs (submission_fields envelope)
    → EnvelopeFrame.decode envelope ≡ ok f
    → Accepted envelope f
    → decode_client_message bs
      ≡ ok (record { kind = envelope_durable; cursor = 0; envelope = envelope })
unfolding decode_client_message durable_message submission_fields equal
durable-Reads bs envelope f size r e a = ground (arith, r.0, r.1.0, a.lower, size)

-- A message uses the fields of its kind, and the others are zero.
abbrev pub IsPlain : ClientMessage → Type 0
IsPlain m = elim m.kind [
  | envelope_online ↦ m.cursor ≡ 0
  | envelope_durable ↦ m.cursor ≡ 0
  | resume ↦ m.envelope ≡ []
  | acknowledge ↦ m.envelope ≡ []
]

abbrev pub message : ClientMessageKind → ℕ → Bytes → ClientMessage
message kind cursor envelope = record { kind = kind; cursor = cursor; envelope = envelope }

-- A buffer of a size that holds the fields.
abbrev Holds : Bytes → ℕ → List Field → Type 0
Holds bs n fs = (length bs ≡ n) × Reads bs fs

Holds-write_all :
    (fs : List Field) (n : ℕ) (bs : Bytes)
    → Adjacent 0 fs n
    → write_all fs (make n) ≡ bs
    → Holds bs n fs
Holds-write_all fs n bs place e =
    subst (λ b. Holds b n fs) e (length-write_all fs n place, Reads-write_all fs n place)

encode_control-written :
    (magic : Bytes) (cursor : ℕ) (z : Bool) (bs : Bytes)
    → encode_control magic cursor z ≡ ok bs
    → ((cursor ≤ max_int64) × ((z ≡ true) ⊎ (0 < cursor)))
      × (write_all (control_fields magic cursor) (make control_size) ≡ bs)
unfolding encode_control
encode_control-written magic cursor z bs e = ground arith

encode_control-eq-ok :
    (magic : Bytes) (cursor : ℕ) (z : Bool) (bs : Bytes)
    → length magic ≡ 4
    → encode_control magic cursor z ≡ ok bs
    → ((cursor ≤ max_int64) × ((z ≡ true) ⊎ (0 < cursor)))
      × Holds bs control_size (control_fields magic cursor)
encode_control-eq-ok magic cursor z bs four e =
    let w : ((cursor ≤ max_int64) × ((z ≡ true) ⊎ (0 < cursor)))
        × (write_all (control_fields magic cursor) (make control_size) ≡ bs) =
      encode_control-written magic cursor z bs e in
    (
      w.0,
      Holds-write_all (control_fields magic cursor) control_size bs
          (control-Adjacent magic cursor four) w.1,
    )

encode_durable_submission-eq-ok :
    (envelope bs : Bytes)
    → encode_durable_submission envelope ≡ ok bs
    → (f : EnvelopeFrame.Frame) × (EnvelopeFrame.decode envelope ≡ ok f)
      × (write_all (submission_fields envelope) (make (submission_prefix_size + length envelope))
          ≡ bs)
unfolding encode_durable_submission
encode_durable_submission-eq-ok envelope bs e = ground arith

decode-encode_kind :
    (k : ClientMessageKind) (cursor : ℕ) (envelope bs : Bytes)
    → IsPlain (message k cursor envelope)
    → encode_client_message (message k cursor envelope) ≡ ok bs
    → decode_client_message bs ≡ ok (message k cursor envelope)
unfolding encode_control encode_resume encode_acknowledgement
decode-encode_kind envelope_online cursor envelope bs p e =
    let (f, accepted, same) =
      wrap_error-eq-ok bad_envelope (EnvelopeFrame.decode envelope) (ok envelope) e in
    ground (arith, online-Accepted envelope f accepted (decode-Accepted envelope f accepted))
decode-encode_kind envelope_durable cursor envelope bs p e =
    let (f, accepted, written) = encode_durable_submission-eq-ok envelope bs e in
    let r : Holds bs (submission_prefix_size + length envelope) (submission_fields envelope) =
      Holds-write_all (submission_fields envelope) _ bs (submission-Adjacent envelope) written in
    ground
      (arith, durable-Reads bs envelope f r.0 r.1 accepted (decode-Accepted envelope f accepted))
decode-encode_kind resume cursor envelope bs p e =
    let (range, r) = encode_control-eq-ok resume_magic cursor true bs refl e in
    ground (arith, resume-Reads bs cursor r.0 r.1)
decode-encode_kind acknowledge cursor envelope bs p e =
    let (range, r) = encode_control-eq-ok ack_magic cursor false bs refl e in
    ground (arith, ack-Reads bs cursor r.0 r.1)

-- Every message that a client can encode is decoded to itself.
pub decode-encode :
    (m : ClientMessage) (bs : Bytes)
    → IsPlain m
    → encode_client_message m ≡ ok bs
    → decode_client_message bs ≡ ok m
decode-encode m bs p e = decode-encode_kind m.kind m.cursor m.envelope bs p e

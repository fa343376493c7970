-- ===== src/Protocol/RelayDelivery.antt =====
-- protocol/relaydelivery/frame.go: the Relay Delivery v1 transport controls.
pub mod RoundTrip
pub mod Canonical
use seven_mirror_server.Common.{
  ℕ, ◌+◌, ◌<◌, ◌^◌, ◌-◌, ◌≡◌, Bool, true, false, ◌||◌, ◌&&◌, not, List, [], ◌∷◌, ltb, leb, ◌==◌,
  length, if◌then◌else◌, drop,
}
use seven_mirror_server.Common.Result.{Result, ok, err, ◌>>=◌, ◌>>◌, refuse_if, wrap_error}
use seven_mirror_server.Common.Bytes.{Bytes, slice, make, equal}
use seven_mirror_server.Common.Bytes.Layout.{Field, field, write_all}
use seven_mirror_server.Common.Bytes.BigEndian.{put, get}
use seven_mirror_server.Protocol.RoutingHeader.{max_int64}
use seven_mirror_server.Protocol.EnvelopeFrame

abbrev pub control_size : ℕ
control_size = 12

abbrev pub delivery_prefix_size : ℕ
delivery_prefix_size = 12

abbrev pub submission_prefix_size : ℕ
submission_prefix_size = 4

-- "SNQ1", "SNC1", "SNC2", "SND1", "SND2", "SNR1"
abbrev pub durable_submission_magic : Bytes
durable_submission_magic = 83 ∷ 78 ∷ 81 ∷ 49 ∷ []

abbrev pub resume_magic : Bytes
resume_magic = 83 ∷ 78 ∷ 67 ∷ 49 ∷ []

abbrev pub ack_magic : Bytes
ack_magic = 83 ∷ 78 ∷ 67 ∷ 50 ∷ []

abbrev pub delivery_magic : Bytes
delivery_magic = 83 ∷ 78 ∷ 68 ∷ 49 ∷ []

abbrev pub caught_up_magic : Bytes
caught_up_magic = 83 ∷ 78 ∷ 68 ∷ 50 ∷ []

abbrev pub reset_magic : Bytes
reset_magic = 83 ∷ 78 ∷ 82 ∷ 49 ∷ []

pub data ClientMessageKind : Type 0 where
  envelope_online envelope_durable resume acknowledge : ClientMessageKind

-- A field that the source leaves out of a literal is its zero value.
pub record ClientMessage : Type 0 where
  pub kind : ClientMessageKind
  pub cursor : ℕ
  pub envelope : Bytes

pub data Error : Type 0 where
  bad_envelope bad_durable_envelope : EnvelopeFrame.Error → Error
  unsupported_message cursor_out_of_range ack_not_positive bad_delivery_id : Error

unfoldable pub online_message : Bytes → Result Error ClientMessage
online_message encoded = do
  wrap_error bad_envelope (EnvelopeFrame.decode encoded)
  ok (record { kind = envelope_online; cursor = 0; envelope = encoded })

unfoldable pub durable_message : Bytes → Result Error ClientMessage
durable_message envelope = do
  wrap_error bad_durable_envelope (EnvelopeFrame.decode envelope)
  ok (record { kind = envelope_durable; cursor = 0; envelope = envelope })

ack_message : ℕ → Result Error ClientMessage
ack_message cursor = do
  refuse_if (cursor == 0) ack_not_positive
  ok (record { kind = acknowledge; cursor = cursor; envelope = [] })

unfoldable pub control_message : Bytes → Result Error ClientMessage
unfolding ack_message
control_message encoded = do
  refuse_if (not (length encoded == control_size)) unsupported_message
  let cursor = get (slice 4 12 encoded)
  refuse_if (ltb max_int64 cursor) cursor_out_of_range
  if equal (slice 0 4 encoded) resume_magic
      then ok (record { kind = resume; cursor = cursor; envelope = [] })
      else if equal (slice 0 4 encoded) ack_magic
      then ack_message cursor
      else err unsupported_message

unfoldable pub decode_client_message : Bytes → Result Error ClientMessage
decode_client_message encoded =
    if leb EnvelopeFrame.min_frame_size (length encoded)
      && equal (slice 0 4 encoded) EnvelopeFrame.magic
    then online_message encoded
    else if leb (submission_prefix_size + EnvelopeFrame.min_frame_size) (length encoded)
        && equal (slice 0 4 encoded) durable_submission_magic
    then durable_message (slice submission_prefix_size (length encoded) encoded)
    else control_message encoded

unfoldable pub submission_fields : Bytes → List Field
submission_fields envelope =
    field 0 4 durable_submission_magic
    ∷ field 4 (submission_prefix_size + length envelope) envelope
    ∷ []

unfoldable pub encode_durable_submission : Bytes → Result Error Bytes
encode_durable_submission envelope = do
  wrap_error bad_envelope (EnvelopeFrame.decode envelope)
  ok (write_all (submission_fields envelope) (make (submission_prefix_size + length envelope)))

unfoldable pub control_fields : Bytes → ℕ → List Field
control_fields magic cursor = field 0 4 magic ∷ field 4 12 (put 8 cursor) ∷ []

unfoldable pub encode_control : Bytes → ℕ → Bool → Result Error Bytes
encode_control magic cursor allow_zero = do
  refuse_if (ltb max_int64 cursor || not allow_zero && cursor == 0) cursor_out_of_range
  ok (write_all (control_fields magic cursor) (make control_size))

unfoldable pub encode_resume : ℕ → Result Error Bytes
encode_resume cursor = encode_control resume_magic cursor true

unfoldable pub encode_acknowledgement : ℕ → Result Error Bytes
encode_acknowledgement cursor = encode_control ack_magic cursor false

unfoldable pub encode_caught_up : ℕ → Result Error Bytes
encode_caught_up high_water = encode_control caught_up_magic high_water true

unfoldable pub encode_reset_required : ℕ → Result Error Bytes
encode_reset_required high_water = encode_control reset_magic high_water true

unfoldable pub delivery_fields : ℕ → Bytes → List Field
delivery_fields delivery_id envelope =
    field 0 4 delivery_magic
    ∷ field 4 12 (put 8 delivery_id)
    ∷ field 12 (delivery_prefix_size + length envelope) envelope
    ∷ []

unfoldable pub encode_delivery : ℕ → Bytes → Result Error Bytes
encode_delivery delivery_id envelope = do
  refuse_if (delivery_id == 0 || ltb max_int64 delivery_id) bad_delivery_id
  wrap_error bad_envelope (EnvelopeFrame.decode envelope)
  ok (
      write_all (delivery_fields delivery_id envelope)
        (make (delivery_prefix_size + length envelope)))

-- ===== src/Protocol/RelayDelivery/Canonical.antt =====
-- What the relay decodes has no other encoding.
use seven_mirror_server.Common.{◌+◌, ◌≤◌, ◌≡◌, ◌↔◌, refl, sym, ap, true, arith, length, All}
use seven_mirror_server.Common.Result.{ok}
use seven_mirror_server.Common.Bytes.{Bytes, IsByte, slice, make, equal, equal_iff}
use seven_mirror_server.Common.Bytes.Layout.{write_all, write_all-Reads, length-slice, slice-IsByte}
use seven_mirror_server.Common.Bytes.BigEndian.{get, put-get}
use seven_mirror_server.Protocol.RelayDelivery.{
  ClientMessage, decode_client_message, online_message, durable_message, control_message,
  encode_durable_submission, encode_resume, encode_acknowledgement, encode_control, control_fields,
  submission_fields, resume_magic, ack_magic, durable_submission_magic, control_size,
  submission_prefix_size,
}
use seven_mirror_server.Protocol.RelayDelivery.RoundTrip.{
  encode_client_message, IsPlain, decode-encode, control-Adjacent, submission-Adjacent,
}

online-canonical :
    (bs : Bytes) (m : ClientMessage) → online_message bs ≡ ok m → encode_client_message m ≡ ok bs
unfolding online_message
online-canonical bs m e = ground arith

submission-written :
    (bs : Bytes)
    → submission_prefix_size ≤ length bs
    → equal (slice 0 4 bs) durable_submission_magic ≡ true
    → let envelope = slice submission_prefix_size (length bs) bs in
      write_all (submission_fields envelope) (make (submission_prefix_size + length envelope)) ≡ bs
unfolding submission_fields
submission-written bs h m =
    let total : length bs
        ≡ submission_prefix_size + length (slice submission_prefix_size (length bs) bs) =
      omega (arith, length-slice submission_prefix_size (length bs) bs h (omega arith)) in
    write_all-Reads bs _ _ total (submission-Adjacent (slice submission_prefix_size (length bs) bs))
      (
        (equal_iff (slice 0 4 bs) durable_submission_magic).0 m,
        (ap (λ n. slice submission_prefix_size n bs) (sym total), tt),
      )

durable-canonical :
    (bs : Bytes) (m : ClientMessage)
    → submission_prefix_size ≤ length bs
    → equal (slice 0 4 bs) durable_submission_magic ≡ true
    → durable_message (slice submission_prefix_size (length bs) bs) ≡ ok m
    → encode_client_message m ≡ ok bs
unfolding durable_message encode_durable_submission
durable-canonical bs m h k e = ground (arith, submission-written bs h k)

control-written :
    (bs magic : Bytes)
    → length bs ≡ control_size
    → All IsByte bs
    → length magic ≡ 4
    → equal (slice 0 4 bs) magic ≡ true
    → write_all (control_fields magic (get (slice 4 12 bs))) (make control_size) ≡ bs
unfolding control_fields
control-written bs magic size b four m =
    let count : length (slice 4 12 bs) ≡ 8 = length-slice 4 12 bs (omega arith) (omega arith) in
    write_all-Reads bs _ control_size size (control-Adjacent magic (get (slice 4 12 bs)) four) (
      (equal_iff (slice 0 4 bs) magic).0 m,
      (sym (put-get 8 (slice 4 12 bs) count (slice-IsByte 4 12 bs b)), tt),
    )

control-size :
    (bs : Bytes) (m : ClientMessage) → control_message bs ≡ ok m → length bs ≡ control_size
unfolding control_message
control-size bs m e = ground arith

control-canonical :
    (bs : Bytes) (m : ClientMessage)
    → All IsByte bs
    → control_message bs ≡ ok m
    → encode_client_message m ≡ ok bs
unfolding control_message encode_resume encode_acknowledgement encode_control
control-canonical bs m b e =
    let size : length bs ≡ control_size = control-size bs m e in
    ground
      (arith, control-written bs resume_magic size b refl, control-written bs ack_magic size b refl)

-- A message that the relay accepts encodes to the bytes that were received.
pub encode-decode :
    (bs : Bytes) (m : ClientMessage)
    → All IsByte bs
    → decode_client_message bs ≡ ok m
    → encode_client_message m ≡ ok bs
unfolding decode_client_message
encode-decode bs m b e =
    ground (arith, online-canonical bs m, durable-canonical bs m, control-canonical bs m b)

-- For a message whose unused fields are zero and any bytes: the client's encoding of the message is
-- the bytes exactly when the relay decodes the bytes to the message. So no message is read as
-- another kind, and none has two encodings.
pub encode_iff_decode_message :
    (m : ClientMessage) (bs : Bytes)
    → IsPlain m
    → All IsByte bs
    → (encode_client_message m ≡ ok bs) ↔ (decode_client_message bs ≡ ok m)
encode_iff_decode_message m bs p b = (decode-encode m bs p, encode-decode bs m b)

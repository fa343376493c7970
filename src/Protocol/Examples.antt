-- ===== src/Protocol/Examples.antt =====
-- Concrete headers, frames and messages.
use seven_mirror_server.Common.{◌≡◌, ◌≤◌, refl, [], ◌∷◌, ◌++◌, replicate, length, arith}
use seven_mirror_server.Common.Result.{ok}
use seven_mirror_server.Common.Bytes.{Bytes, slice, make, copy_at, equal, all_zero}
use seven_mirror_server.Common.Bytes.Layout.{write_all}
use seven_mirror_server.Common.Bytes.BigEndian.{put, get}
use seven_mirror_server.Protocol.RoutingHeader
use seven_mirror_server.Protocol.RoutingHeader.{Header}
use seven_mirror_server.Protocol.RoutingHeader.Validity.{IsValid, validate_iff}
use seven_mirror_server.Protocol.RoutingHeader.RoundTrip.{encode_iff_decode_header}
use seven_mirror_server.Protocol.EnvelopeFrame
use seven_mirror_server.Protocol.EnvelopeFrame.RoundTrip.{
  encode_iff_decode_frame, decode_frame_header,
}
use seven_mirror_server.Protocol.RelayDelivery.{
  ClientMessage, acknowledge, envelope_durable, decode_client_message, durable_message,
  encode_acknowledgement, encode_control, control_fields,
}
use seven_mirror_server.Protocol.RelayDelivery.Canonical.{encode_iff_decode_message}

abbrev pub sample_header : Header
sample_header = record {
  workspace_id = replicate 16 1;
  sender_device_id = replicate 16 2;
  recipient_device_id = replicate 16 3;
  sender_key_id = replicate 32 4;
  recipient_key_id = replicate 32 5;
  message_id = replicate 16 6;
  sequence = 7;
  created_at_unix_ms = 1000;
  expires_at_unix_ms = 61000;
}

sample_header-IsTyped : RoutingHeader.IsTyped sample_header
sample_header-IsTyped = record {
  workspace_id = omega arith;
  sender_device_id = omega arith;
  recipient_device_id = omega arith;
  sender_key_id = omega arith;
  recipient_key_id = omega arith;
  message_id = omega arith;
  sequence = omega arith;
  created_at_unix_ms = omega arith;
  expires_at_unix_ms = omega arith;
}

abbrev pub sample_header_bytes : Bytes
sample_header_bytes =
    83 ∷ 78 ∷ 72 ∷ 49 ∷ 0 ∷ 1 ∷ 0 ∷ 0 ∷ []
    ++ (replicate 16 1
        ++ (replicate 16 2
            ++ (replicate 16 3
                ++ (replicate 32 4
                    ++ (replicate 32 5
                        ++ (replicate 16 6
                            ++ 0 ∷ 0 ∷ 0 ∷ 0 ∷ 0 ∷ 0 ∷ 0 ∷ 7 ∷ 0 ∷ 0 ∷ 0 ∷ 0 ∷ 0 ∷ 0 ∷ 3 ∷ 232 ∷ 0
                              ∷ 0 ∷ 0 ∷ 0 ∷ 0 ∷ 0 ∷ 238 ∷ 72 ∷ []))))))

sample_header_encoded : RoutingHeader.encode sample_header ≡ ok sample_header_bytes
unfolding RoutingHeader.encode RoutingHeader.validate RoutingHeader.fields write_all make copy_at
    put all_zero
sample_header_encoded = refl

encode_iff_decode_header_example : RoutingHeader.decode sample_header_bytes ≡ ok sample_header
encode_iff_decode_header_example =
    (encode_iff_decode_header sample_header sample_header_bytes sample_header-IsTyped
        (omega arith)).0
      sample_header_encoded

validate_iff_example : IsValid sample_header
unfolding RoutingHeader.validate all_zero
validate_iff_example = (validate_iff sample_header).0 refl

abbrev sample_frame : EnvelopeFrame.Frame
sample_frame = record {
  routing_header = sample_header_bytes;
  encapsulated_key = 4 ∷ replicate 64 9;
  ciphertext = replicate 16 7;
}

abbrev pub sample_frame_bytes : Bytes
sample_frame_bytes =
    83 ∷ 78 ∷ 69 ∷ 49 ∷ []
    ++ (sample_header_bytes ++ (4 ∷ replicate 64 9 ++ (0 ∷ 0 ∷ 0 ∷ 16 ∷ replicate 16 7)))

sample_frame-IsTyped : EnvelopeFrame.IsTyped sample_frame
sample_frame-IsTyped = record {
  routing_header = omega arith;
  encapsulated_key = omega arith;
  ciphertext = omega arith;
}

sample_frame_decoded : EnvelopeFrame.decode sample_frame_bytes ≡ ok sample_frame
unfolding EnvelopeFrame.decode EnvelopeFrame.validate EnvelopeFrame.parse RoutingHeader.decode
    RoutingHeader.validate RoutingHeader.parse slice get equal all_zero
sample_frame_decoded = refl

encode_iff_decode_frame_example : EnvelopeFrame.encode sample_frame ≡ ok sample_frame_bytes
encode_iff_decode_frame_example =
    (encode_iff_decode_frame sample_frame sample_frame_bytes sample_frame-IsTyped (omega arith)).1
      sample_frame_decoded

decode_frame_header_example :
    (EnvelopeFrame.min_frame_size ≤ length sample_frame_bytes)
    × (length sample_frame_bytes ≤ EnvelopeFrame.max_frame_size)
    × (h : Header) × (RoutingHeader.decode (slice 4 164 sample_frame_bytes) ≡ ok h)
    × IsValid h
decode_frame_header_example =
    decode_frame_header sample_frame_bytes sample_frame sample_frame_decoded

abbrev sample_message : ClientMessage
sample_message = record { kind = acknowledge; cursor = 258; envelope = [] }

encode_iff_decode_message_example :
    decode_client_message (83 ∷ 78 ∷ 67 ∷ 50 ∷ 0 ∷ 0 ∷ 0 ∷ 0 ∷ 0 ∷ 0 ∷ 1 ∷ 2 ∷ [])
    ≡ ok sample_message
unfolding encode_acknowledgement encode_control control_fields write_all make copy_at put
encode_iff_decode_message_example =
    (encode_iff_decode_message sample_message _ refl (omega arith)).0 refl

-- A durable submission of the frame is not read as the frame itself.
submission_decoded :
    decode_client_message (83 ∷ 78 ∷ 81 ∷ 49 ∷ sample_frame_bytes)
    ≡ ok (record { kind = envelope_durable; cursor = 0; envelope = sample_frame_bytes })
unfolding decode_client_message durable_message EnvelopeFrame.decode EnvelopeFrame.validate
    EnvelopeFrame.parse RoutingHeader.decode RoutingHeader.validate RoutingHeader.parse slice get
    equal all_zero
submission_decoded = refl

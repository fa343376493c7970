-- ===== src/Protocol/Payload/Examples.antt =====
-- A snapshot of two notifications, and a dismissal.
use seven_mirror_server.Common.{
  ℕ, ◌≡◌, ◌⊎◌, inl, inr, refl, Bool, true, false, ◌&&◌, Option, none, some, [], ◌∷◌, arith,
  replicate, ◌==◌, if◌then◌else◌, Bool-cases,
}
use seven_mirror_server.Common.Bytes.{equal, equal_iff, all_zero}
use seven_mirror_server.Common.Bytes.Order.{less}
use seven_mirror_server.Common.Result.{ok, err}
use seven_mirror_server.Protocol.Membership.{Codec}
use seven_mirror_server.Protocol.Membership.Canonical.{IsCodec}
use seven_mirror_server.Protocol.Payload.{
  Body, Payload, Library, ActionResultAck, Manifest, action_result_ack, bad_schema,
  validate_notification_binding,
}
use seven_mirror_server.Protocol.Payload.Notifications.{
  validate_notification_snapshot_manifest, check_entries,
}
use seven_mirror_server.Protocol.Payload.Actions.{validate_action_result_ack}
use seven_mirror_server.Protocol.Payload.Encoding.{
  validate_body, validate_payload, encode_payload, decode_payload,
}
use seven_mirror_server.Protocol.Payload.Schemas.{
  IsLegacy, validate_payload_iff, encode_iff_decode_payload,
}
use seven_mirror_server.Protocol.Payload.Uniqueness.{
  IsSnapshot, validate_notification_snapshot_manifest-IsSnapshot,
}

abbrev ack : ActionResultAck
ack = record { unknown = []; idempotency_key = replicate 16 1; result_sha256 = replicate 32 2 }

-- The same acknowledgement under the present schema and under the first one.
abbrev present_ack : Payload
present_ack = record { unknown = []; version = 2; body = some (action_result_ack ack) }

abbrev old_ack : Payload
old_ack = record { unknown = []; version = 1; body = some (action_result_ack ack) }

abbrev is_ack_body : Option Body → Bool
is_ack_body none = false
is_ack_body (some (action_result_ack r)) =
    equal r.unknown []
    && equal r.idempotency_key (replicate 16 1)
    && equal r.result_sha256 (replicate 32 2)
is_ack_body (some _) = false

abbrev is_present_ack : Payload → Bool
is_present_ack p = equal p.unknown [] && p.version == 2 && is_ack_body p.body

is_ack_body-eq :
    (body : Option Body) → is_ack_body body ≡ true → body ≡ some (action_result_ack ack)
is_ack_body-eq none e = cc
is_ack_body-eq (some (action_result_ack r)) e = ground (
  arith,
  equal_iff r.unknown [],
  equal_iff r.idempotency_key (replicate 16 1),
  equal_iff r.result_sha256 (replicate 32 2),
)
is_ack_body-eq (some _) e = cc

is_present_ack-eq : (p : Payload) → is_present_ack p ≡ true → p ≡ present_ack
is_present_ack-eq p e = ground (arith, equal_iff p.unknown [], is_ack_body-eq p.body)

-- A codec that knows one payload.
abbrev one_payload : Codec Payload
one_payload = record {
  marshal = λ p. if is_present_ack p then some (8 ∷ 2 ∷ []) else none;
  unmarshal = λ bs. if equal bs (8 ∷ 2 ∷ []) then some present_ack else none;
}

one_payload-IsCodec : IsCodec one_payload
one_payload-IsCodec = record {
  back = λ p bs e. elim (Bool-cases (is_present_ack p)) [
    | inl same ↦ ground (arith, is_present_ack-eq p, equal_iff bs (8 ∷ 2 ∷ []))
    | inr other ↦ absurd (ground (arith, other))
  ];
}

abbrev library : Library
library = record {
  payload = one_payload;
  sum256 = λ bs. replicate 32 9;
  is_point = λ bs. true;
  is_valid_utf8 = λ bs. true;
}

ack_encoded : encode_payload library present_ack ≡ ok (8 ∷ 2 ∷ [])
unfolding encode_payload validate_payload validate_body validate_action_result_ack equal all_zero
ack_encoded = refl

encode_iff_decode_payload_example :
    (decode_payload library (8 ∷ 2 ∷ []) ≡ ok present_ack)
    × (validate_payload library present_ack false ≡ ok tt)
encode_iff_decode_payload_example =
    (encode_iff_decode_payload library present_ack (8 ∷ 2 ∷ []) one_payload-IsCodec).0 ack_encoded

-- The old one is still read, but no longer written.
old_refused : encode_payload library old_ack ≡ err bad_schema
unfolding encode_payload validate_payload validate_body
old_refused = refl

validate_payload_iff_example :
    (validate_payload library old_ack false ≡ ok tt)
    ⊎ ((◌≡◌ {A = ℕ} 1 1)
        × IsLegacy (some (action_result_ack ack))
        × (validate_payload library present_ack false ≡ ok tt))
unfolding validate_payload validate_body validate_action_result_ack all_zero
validate_payload_iff_example = (validate_payload_iff library old_ack).0 refl

abbrev snapshot : Manifest
snapshot = record {
  unknown = [];
  high_water_revision = 5;
  active_notifications =
      record { unknown = []; notification_id = 65 ∷ []; notification_revision = 5 }
      ∷ record { unknown = []; notification_id = 66 ∷ []; notification_revision = 3 }
      ∷ [];
  recovery_request_id = none;
}

validate_notification_snapshot_manifest-IsSnapshot_example : IsSnapshot library snapshot
unfolding validate_notification_snapshot_manifest check_entries validate_notification_binding less
validate_notification_snapshot_manifest-IsSnapshot_example =
    validate_notification_snapshot_manifest-IsSnapshot library snapshot refl

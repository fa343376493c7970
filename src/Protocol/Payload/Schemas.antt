-- ===== src/Protocol/Payload/Schemas.antt =====
-- Which payloads are read and written, and that writing is the inverse of reading.
use seven_mirror_server.Common.{
  ℕ, ◌≡◌, ◌↔◌, ◌⊎◌, inl, sym, ap, ◌∙◌, true, false, Option, none, some, arith,
}
use seven_mirror_server.Common.Bytes.{Bytes, equal_iff, equal_refl}
use seven_mirror_server.Common.Result.{ok, bind-eq-ok, refuse_if}
use seven_mirror_server.Protocol.Membership.Canonical.{IsCodec}
use seven_mirror_server.Protocol.Payload.{
  Body, Payload, Library, action_invoke, action_result, action_result_ack, key_transition,
  key_transition_ack, key_transition_commit, upsert, removed, manifest, snapshot_request,
  schema_version,
}
use seven_mirror_server.Protocol.Payload.Encoding.{
  validate_body, validate_payload, encode_payload, decode_payload, read_payload, check_canonical,
  is_bad_size,
}

-- The bodies that the first schema had.
abbrev pub IsLegacy : Option Body → Type 0
IsLegacy none = ⊥
IsLegacy (some (action_invoke a)) = a.dismiss_notification ≡ false
IsLegacy (some (action_result r)) = Unit {0}
IsLegacy (some (action_result_ack r)) = Unit {0}
IsLegacy (some _) = ⊥

-- A body that the decoder takes and the encoder does not.
abbrev pub IsOldBody : Library → ℕ → Option Body → Type 0
IsOldBody l version body =
    (version ≡ 1) × IsLegacy body × (validate_body l schema_version false body ≡ ok tt)

validate_body_iff :
    (l : Library) (version : ℕ) (body : Option Body)
    → (validate_body l version true body ≡ ok tt)
      ↔ ((validate_body l version false body ≡ ok tt) ⊎ IsOldBody l version body)
unfolding validate_body
validate_body_iff l version none = ground arith
validate_body_iff l version (some (action_invoke a)) = ground arith
validate_body_iff l version (some (action_result r)) = ground arith
validate_body_iff l version (some (action_result_ack r)) = ground arith
validate_body_iff l version (some (key_transition t)) = ground arith
validate_body_iff l version (some (key_transition_ack t)) = ground arith
validate_body_iff l version (some (key_transition_commit t)) = ground arith
validate_body_iff l version (some (upsert n)) = ground arith
validate_body_iff l version (some (removed n)) = ground arith
validate_body_iff l version (some (manifest m)) = ground arith
validate_body_iff l version (some (snapshot_request r)) = ground arith

-- The decoder takes the payloads that the encoder takes, and besides only those of the first schema
-- with an action that dismisses nothing, a result or its acknowledgement, which the encoder would
-- take under the present schema.
pub validate_payload_iff :
    (l : Library) (p : Payload)
    → (validate_payload l p true ≡ ok tt) ↔ (
        (validate_payload l p false ≡ ok tt)
        ⊎ ((p.version ≡ 1)
            × IsLegacy p.body
            × (validate_payload l (record p { version = schema_version }) false ≡ ok tt)))
unfolding validate_payload
validate_payload_iff l p = ground (arith, validate_body_iff l p.version p.body)

check_canonical-eq-ok :
    (encoded : Bytes) (q p : Payload) (again : Option Bytes)
    → check_canonical encoded q again ≡ ok p
    → (again ≡ some encoded) × (q ≡ p)
check_canonical-eq-ok encoded q p none e = cc
check_canonical-eq-ok encoded q p (some canonical) e = ground (arith, equal_iff canonical encoded)

-- What decodes is the encoding of its value.
decode-eq-ok :
    (l : Library) (p : Payload) (encoded : Bytes)
    → decode_payload l encoded ≡ ok p
    → (is_bad_size encoded ≡ false) × (l.payload.marshal p ≡ some encoded)
unfolding decode_payload
decode-eq-ok l p encoded e =
    let sized : is_bad_size encoded ≡ false = ground arith in
    let (u, small, rest) = bind-eq-ok (refuse_if (is_bad_size encoded) _) _ e in
    let (q, read, checks) = bind-eq-ok (read_payload (l.payload.unmarshal encoded)) _ rest in
    let (v, valid, last) = bind-eq-ok (validate_payload l q true) _ checks in
    let (again, same) = check_canonical-eq-ok encoded q p (l.payload.marshal q) last in
    (sized, ap l.payload.marshal (sym same) ∙ again)

-- Given protobuf's round trip, a payload encodes to given bytes exactly when those bytes decode to
-- it and it is of a schema that is still written.
pub encode_iff_decode_payload :
    (l : Library) (p : Payload) (encoded : Bytes)
    → IsCodec l.payload
    → (encode_payload l p ≡ ok encoded)
      ↔ ((decode_payload l encoded ≡ ok p) × (validate_payload l p false ≡ ok tt))
unfolding encode_payload decode_payload
encode_iff_decode_payload l p encoded law = (
  λ e.
      let valid : validate_payload l p false ≡ ok tt = ground arith in
      let marshalled : l.payload.marshal p ≡ some encoded = ground arith in
      let read : l.payload.unmarshal encoded ≡ some p = law.back p encoded marshalled in
      let wide : validate_payload l p true ≡ ok tt = (validate_payload_iff l p).1 (inl valid) in
      (ground (arith, marshalled, read, wide, equal_refl encoded), valid),
  λ (e, valid). ground (arith, decode-eq-ok l p encoded e, valid),
)

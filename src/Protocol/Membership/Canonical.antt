-- ===== src/Protocol/Membership/Canonical.antt =====
-- Membership messages have one encoding.
use seven_mirror_server.Common.{
  ◌≡◌, ◌↔◌, sym, ap, ◌∙◌, false, Option, none, some, arith, ltb, ◌==◌, length, Option-cases, inl,
  inr,
}
use seven_mirror_server.Common.Bytes.{Bytes, equal_iff, equal_refl}
use seven_mirror_server.Common.Result.{ok}
use seven_mirror_server.Protocol.Membership.{
  Codec, Primitives, Proof, SignedCertificate, SignedRoster, SignedAuthorityTransition, encode,
  decode_canonical, recheck, max_membership_message_size,
}
use seven_mirror_server.Protocol.Membership.Identity.{encode_proof, decode_proof}
use seven_mirror_server.Protocol.Membership.Certificates.{
  encode_signed_device_certificate, decode_signed_device_certificate,
}
use seven_mirror_server.Protocol.Membership.Rosters.{
  encode_signed_workspace_roster, decode_signed_workspace_roster,
}
use seven_mirror_server.Protocol.Membership.Authority.{
  encode_signed_authority_key_transition, decode_signed_authority_key_transition,
}

-- protobuf: what was marshalled is unmarshalled to the same message.
pub record IsCodec {A : Type 0} (c : Codec A) : Type 0 where
  pub back :
      (value : A) (encoded : Bytes)
      → c.marshal value ≡ some encoded
      → c.unmarshal encoded ≡ some value

recheck-eq-ok :
    {A : Type 0} (encoded : Bytes) (read value : A) (again : Option Bytes)
    → recheck encoded read again ≡ ok value
    → (again ≡ some encoded) × (read ≡ value)
recheck-eq-ok encoded read value none e = cc
recheck-eq-ok encoded read value (some canonical) e = ground (arith, equal_iff canonical encoded)

-- What decodes is the encoding of its value.
decode-marshal :
    {A : Type 0} (c : Codec A) (value : A) (encoded : Bytes)
    → decode_canonical c encoded ≡ ok value
    → (c.marshal value ≡ some encoded)
      × (length encoded == 0 ≡ false)
      × (ltb max_membership_message_size (length encoded) ≡ false)
unfolding decode_canonical
decode-marshal c value encoded e = elim (Option-cases (c.unmarshal encoded)) [
  | inl nothing ↦ absurd (ground (arith, nothing))
  | inr (read, found) ↦
      let checked : recheck encoded read (c.marshal read) ≡ ok value = ground (arith, found) in
      let (again, same) = recheck-eq-ok encoded read value (c.marshal read) checked in
      (ap c.marshal (sym same) ∙ again, ground arith, ground arith)
]

-- For a value with a codec that reads back what it wrote, encoding gives the bytes exactly when
-- they decode to the value.
pub canonical_iff :
    {A : Type 0} (c : Codec A) (value : A) (encoded : Bytes)
    → IsCodec c
    → (encode c value ≡ ok encoded) ↔ (decode_canonical c encoded ≡ ok value)
unfolding encode decode_canonical
canonical_iff c value encoded law = (
  λ e.
      let marshalled : c.marshal value ≡ some encoded = ground arith in
      ground (arith, marshalled, law.back value encoded marshalled, equal_refl encoded),
  λ e. ground (arith, decode-marshal c value encoded e),
)

-- Given protobuf's round trip, a signed roster that is valid under the authority's key encodes to
-- given bytes exactly when those bytes decode to it under that key.
pub encode_iff_decode_signed_roster :
    (p : Primitives) (v : SignedRoster) (encoded key : Bytes)
    → IsCodec p.signed_roster
    → (encode_signed_workspace_roster p v key ≡ ok encoded)
      ↔ (decode_signed_workspace_roster p encoded key ≡ ok v)
unfolding encode_signed_workspace_roster decode_signed_workspace_roster
encode_iff_decode_signed_roster p v encoded key law =
    let both = canonical_iff p.signed_roster v encoded law in
    (λ e. ground (arith, both), λ e. ground (arith, both))

-- Given protobuf's round trip, a signed certificate that is valid under the authority's key encodes
-- to given bytes exactly when those bytes decode to it under that key.
pub encode_iff_decode_signed_certificate :
    (p : Primitives) (v : SignedCertificate) (encoded key : Bytes)
    → IsCodec p.signed_certificate
    → (encode_signed_device_certificate p v key ≡ ok encoded)
      ↔ (decode_signed_device_certificate p encoded key ≡ ok v)
unfolding encode_signed_device_certificate decode_signed_device_certificate
encode_iff_decode_signed_certificate p v encoded key law =
    let both = canonical_iff p.signed_certificate v encoded law in
    (λ e. ground (arith, both), λ e. ground (arith, both))

-- Given protobuf's round trip, a signed authority transition that is valid encodes to given bytes
-- exactly when those bytes decode to it.
pub encode_iff_decode_signed_transition :
    (p : Primitives) (v : SignedAuthorityTransition) (encoded : Bytes)
    → IsCodec p.signed_transition
    → (encode_signed_authority_key_transition p v ≡ ok encoded)
      ↔ (decode_signed_authority_key_transition p encoded ≡ ok v)
unfolding encode_signed_authority_key_transition decode_signed_authority_key_transition
encode_iff_decode_signed_transition p v encoded law =
    let both = canonical_iff p.signed_transition v encoded law in
    (λ e. ground (arith, both), λ e. ground (arith, both))

-- Given protobuf's round trip, a valid identity proof encodes to given bytes exactly when those
-- bytes decode to it.
pub encode_iff_decode_proof :
    (p : Primitives) (v : Proof) (encoded : Bytes)
    → IsCodec p.proof
    → (encode_proof p v ≡ ok encoded) ↔ (decode_proof p encoded ≡ ok v)
unfolding encode_proof decode_proof
encode_iff_decode_proof p v encoded law =
    let both = canonical_iff p.proof v encoded law in
    (λ e. ground (arith, both), λ e. ground (arith, both))

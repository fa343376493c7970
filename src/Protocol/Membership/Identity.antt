-- ===== src/Protocol/Membership/Identity.antt =====
-- protocol/membershipcodec/membership.go: identity challenges and the proofs that answer them.
use seven_mirror_server.Common.{◌-◌, ◌||◌, not, ◌++◌, ltb, leb, ◌==◌}
use seven_mirror_server.Common.Bytes.{Bytes, equal}
use seven_mirror_server.Common.Result.{Result, ok, ◌>>=◌, ◌>>◌, refuse_if}
use seven_mirror_server.Protocol.RoutingHeader.{max_int64}
use seven_mirror_server.Protocol.Membership.{
  Challenge, Proof, Primitives, Error, missing_or_unknown, bad_version, bad_secret, bad_lifetime,
  mismatch, encode, decode_canonical, domain_hash, is_bad_id, validate_binding, has_unknown,
  protocol_version, digest_size, max_challenge_lifetime,
}
use seven_mirror_server.Protocol.Membership.Domains.{
  possession_hpke_info_domain, challenge_digest_domain,
}

unfoldable pub validate_challenge : Challenge → Result Error (Unit {0})
validate_challenge v = do
  refuse_if (has_unknown v.unknown) missing_or_unknown
  refuse_if (not (v.version == protocol_version)) bad_version
  validate_binding v.workspace_id v.device_id v.identity_key_id
  refuse_if (is_bad_id digest_size v.challenge_secret) bad_secret
  refuse_if
      (v.issued_at_unix_ms == 0
        || ltb max_int64 v.issued_at_unix_ms
        || leb v.expires_at_unix_ms v.issued_at_unix_ms
        || ltb max_int64 v.expires_at_unix_ms
        || ltb max_challenge_lifetime (v.expires_at_unix_ms - v.issued_at_unix_ms))
      bad_lifetime

unfoldable pub validate_proof : Proof → Result Error (Unit {0})
validate_proof v = do
  refuse_if (has_unknown v.unknown) missing_or_unknown
  refuse_if (not (v.version == protocol_version)) bad_version
  validate_binding v.workspace_id v.device_id v.identity_key_id
  refuse_if (is_bad_id digest_size v.challenge_digest || is_bad_id digest_size v.challenge_secret)
      bad_secret

unfoldable pub encode_challenge : Primitives → Challenge → Result Error Bytes
encode_challenge p v = do validate_challenge v; encode p.challenge v

unfoldable pub decode_challenge : Primitives → Bytes → Result Error Challenge
decode_challenge p encoded = do v ← decode_canonical p.challenge encoded; validate_challenge v; ok v

unfoldable pub encode_proof : Primitives → Proof → Result Error Bytes
encode_proof p v = do validate_proof v; encode p.proof v

unfoldable pub decode_proof : Primitives → Bytes → Result Error Proof
decode_proof p encoded = do v ← decode_canonical p.proof encoded; validate_proof v; ok v

unfoldable pub possession_hpke_info : Bytes → Bytes → Bytes → Result Error Bytes
possession_hpke_info workspace_id device_id identity_key_id = do
  validate_binding workspace_id device_id identity_key_id
  ok (possession_hpke_info_domain ++ (workspace_id ++ (device_id ++ identity_key_id)))

unfoldable pub challenge_digest : Primitives → Challenge → Result Error Bytes
challenge_digest p v = do
  encoded ← encode_challenge p v
  ok (domain_hash p challenge_digest_domain encoded)

unfoldable pub validate_proof_against_challenge :
    Primitives → Proof → Challenge → Result Error (Unit {0})
validate_proof_against_challenge p proof challenge = do
  validate_proof proof
  digest ← challenge_digest p challenge
  refuse_if
      (not (equal proof.workspace_id challenge.workspace_id)
        || not (equal proof.device_id challenge.device_id)
        || not (equal proof.identity_key_id challenge.identity_key_id)
        || not (equal proof.challenge_digest digest)
        || not (equal proof.challenge_secret challenge.challenge_secret))
      mismatch

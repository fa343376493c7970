-- ===== src/Protocol/Membership/Authority.antt =====
-- protocol/membershipcodec/membership.go: the handover from one authority key to the next.
use seven_mirror_server.Common.{◌||◌, ◌&&◌, not, some, [], ltb, ◌==◌, length}
use seven_mirror_server.Common.Bytes.{Bytes, equal, all_zero}
use seven_mirror_server.Common.Result.{Result, ok, ◌>>=◌, ◌>>◌, refuse_if}
use seven_mirror_server.Protocol.RoutingHeader.{max_int64}
use seven_mirror_server.Protocol.Membership.{
  AuthorityTransition, SignedAuthorityTransition, Primitives, Error, missing_or_unknown,
  bad_version, bad_epoch, bad_previous_digest, bad_key_binding, bad_time, bad_private_key,
  bad_digest, bad_signature, encode, decode_canonical, domain_bytes, domain_hash, is_bad_id,
  has_unknown, protocol_version, identifier_size, digest_size, signature_size,
  authority_public_key_size, authority_private_key_size,
}
use seven_mirror_server.Protocol.Membership.Domains.{
  authority_transition_digest_domain, authority_transition_old_signature_domain,
  authority_transition_new_signature_domain,
}
use seven_mirror_server.Protocol.Membership.Certificates.{present}

unfoldable pub validate_authority_key_transition :
    AuthorityTransition → Bytes → Bytes → Result Error (Unit {0})
validate_authority_key_transition v previous_key new_key = do
  refuse_if (has_unknown v.unknown) missing_or_unknown
  refuse_if (not (v.version == protocol_version) || is_bad_id identifier_size v.workspace_id)
      bad_version
  refuse_if (ltb v.transition_epoch 2 || ltb max_int64 v.transition_epoch) bad_epoch
  refuse_if
      (not (length v.previous_transition_digest == digest_size)
        || v.transition_epoch == 2 && not (all_zero v.previous_transition_digest)
        || ltb 2 v.transition_epoch && all_zero v.previous_transition_digest)
      bad_previous_digest
  refuse_if
      (not (length previous_key == authority_public_key_size)
        || not (length new_key == authority_public_key_size)
        || not (equal previous_key v.previous_authority_public_key)
        || not (equal new_key v.new_authority_public_key)
        || equal previous_key new_key
        || all_zero previous_key
        || all_zero new_key)
      bad_key_binding
  refuse_if
      (ltb v.activation_roster_epoch 2
        || ltb max_int64 v.activation_roster_epoch
        || is_bad_id digest_size v.previous_roster_digest
        || v.issued_at_unix_ms == 0
        || ltb max_int64 v.issued_at_unix_ms)
      bad_time

unfoldable pub validate_signed_authority_key_transition :
    Primitives → SignedAuthorityTransition → Result Error (Unit {0})
validate_signed_authority_key_transition p v = do
  refuse_if (has_unknown v.unknown) missing_or_unknown
  t ← present v.transition
  validate_authority_key_transition t t.previous_authority_public_key t.new_authority_public_key
  encoded ← encode p.transition t
  refuse_if
      (not (equal v.transition_digest (domain_hash p authority_transition_digest_domain encoded)))
      bad_digest
  refuse_if
      (not (length v.previous_authority_signature == signature_size)
        || not (
            p.verify t.previous_authority_public_key
              (domain_bytes authority_transition_old_signature_domain encoded)
              v.previous_authority_signature))
      bad_signature
  refuse_if
      (not (length v.new_authority_signature == signature_size)
        || not (
            p.verify t.new_authority_public_key
              (domain_bytes authority_transition_new_signature_domain encoded)
              v.new_authority_signature))
      bad_signature

unfoldable pub sign_authority_key_transition :
    Primitives → AuthorityTransition → Bytes → Bytes → Result Error SignedAuthorityTransition
sign_authority_key_transition p t previous_private_key new_private_key = do
  refuse_if
      (not (length previous_private_key == authority_private_key_size)
        || not (length new_private_key == authority_private_key_size))
      bad_private_key
  validate_authority_key_transition t (p.public_key previous_private_key)
      (p.public_key new_private_key)
  encoded ← encode p.transition t
  let signed : SignedAuthorityTransition = record {
    unknown = [];
    transition = some t;
    transition_digest = domain_hash p authority_transition_digest_domain encoded;
    previous_authority_signature =
        p.sign previous_private_key
          (domain_bytes authority_transition_old_signature_domain encoded);
    new_authority_signature =
        p.sign new_private_key (domain_bytes authority_transition_new_signature_domain encoded);
  }
  ok signed

unfoldable pub encode_signed_authority_key_transition :
    Primitives → SignedAuthorityTransition → Result Error Bytes
encode_signed_authority_key_transition p v = do
  validate_signed_authority_key_transition p v
  encode p.signed_transition v

unfoldable pub decode_signed_authority_key_transition :
    Primitives → Bytes → Result Error SignedAuthorityTransition
decode_signed_authority_key_transition p encoded = do
  v ← decode_canonical p.signed_transition encoded
  validate_signed_authority_key_transition p v
  ok v

-- ===== src/Protocol/Membership/Rosters.antt =====
-- protocol/membershipcodec/membership.go: rosters, which list the active certificates of a
-- workspace at an epoch. A map of the source's loop is the list of what was put, the newest first.
use seven_mirror_server.Common.{
  Bool, false, ◌||◌, ◌&&◌, not, Option, none, some, List, [], ◌∷◌, ltb, leb, ◌==◌, length,
  if◌then◌else◌,
}
use seven_mirror_server.Common.Bytes.Order.{follows}
use seven_mirror_server.Common.Bytes.{Bytes, equal, all_zero}
use seven_mirror_server.Common.Result.{Result, ok, ◌>>=◌, ◌>>◌, refuse_if}
use seven_mirror_server.Protocol.RoutingHeader.{max_int64}
use seven_mirror_server.Protocol.Membership.{
  SignedCertificate, Revocation, CertificateTransition, Roster, SignedRoster, Primitives, Error,
  missing_or_unknown, bad_version, bad_previous_digest, too_many, unbound_certificate, unsorted,
  bad_transition, inactive_replacement, bad_revocation, active_revoked, bad_private_key,
  bad_public_key, bad_digest, bad_signature, encode, decode_canonical, domain_bytes, domain_hash,
  is_bad_id, has_unknown, protocol_version, identifier_size, digest_size, signature_size,
  authority_public_key_size, authority_private_key_size, max_active_certificates,
  max_certificate_transitions, max_revocations,
}
use seven_mirror_server.Protocol.Membership.Domains.{roster_digest_domain, roster_signature_domain}
use seven_mirror_server.Protocol.Membership.Certificates.{
  present, reason_display_name, validate_signed_device_certificate,
}

-- activeCertificateIDs and activeCertificatesByDevice: the device and the certificate's id.
pub record Active : Type 0 where
  pub device_id : Bytes
  pub certificate_id : Bytes

unfoldable pub is_active_id : List Active → Bytes → Bool
is_active_id [] id = false
is_active_id (a ∷ as') id = equal a.certificate_id id || is_active_id as' id

-- The active certificate's id of a device.
unfoldable pub active_of : List Active → Bytes → Option Bytes
active_of [] device_id = none
active_of (a ∷ as') device_id =
    let rest = active_of as' device_id in
    if equal a.device_id device_id then some a.certificate_id else rest

abbrev pub previous_of : List Active → Option Bytes
previous_of [] = none
previous_of (a ∷ as') = some a.device_id

-- One round of the first loop.
unfoldable pub check_certificate :
    Primitives → Roster → Bytes → List Active → SignedCertificate → Result Error (List Active)
check_certificate p v key active c = do
  validate_signed_device_certificate p c key
  body ← present c.certificate
  refuse_if
      (not (equal body.workspace_id v.workspace_id) || ltb v.roster_epoch body.membership_epoch)
      unbound_certificate
  refuse_if (not (follows (previous_of active) body.device_id)) unsorted
  ok (record { device_id = body.device_id; certificate_id = c.certificate_id } ∷ active)

unfoldable pub check_certificates :
    Primitives → Roster → Bytes → List Active → List SignedCertificate → Result Error (List Active)
check_certificates p v key active [] = ok active
check_certificates p v key active (c ∷ cs) = do
  next ← check_certificate p v key active c
  check_certificates p v key next cs

abbrev pub is_replacement : Option Bytes → Bytes → Bool
is_replacement none id = false
is_replacement (some active) id = equal active id

abbrev pub is_transition_of : Roster → CertificateTransition → Bool
is_transition_of v t =
    not (has_unknown t.unknown)
    && t.version == protocol_version
    && equal t.workspace_id v.workspace_id
    && not (is_bad_id identifier_size t.device_id)
    && not (is_bad_id digest_size t.previous_certificate_id)
    && not (is_bad_id digest_size t.new_certificate_id)
    && not (equal t.previous_certificate_id t.new_certificate_id)
    && t.activation_roster_epoch == v.roster_epoch
    && equal t.previous_roster_digest v.previous_roster_digest
    && t.reason == reason_display_name
    && not (t.issued_at_unix_ms == 0)
    && leb t.issued_at_unix_ms max_int64

-- The second loop, from the device before.
unfoldable pub check_transitions :
    Roster → List Active → Option Bytes → List CertificateTransition → Result Error (Unit {0})
check_transitions v active previous [] = ok tt
check_transitions v active previous (t ∷ ts) = do
  refuse_if (not (is_transition_of v t)) bad_transition
  refuse_if (not (follows previous t.device_id)) unsorted
  refuse_if (not (is_replacement (active_of active t.device_id) t.new_certificate_id))
      inactive_replacement
  check_transitions v active (some t.device_id) ts

abbrev pub is_bad_revocation : Revocation → Bool
is_bad_revocation r =
    has_unknown r.unknown
    || is_bad_id digest_size r.certificate_id
    || is_bad_id identifier_size r.device_id
    || r.revoked_at_unix_ms == 0
    || ltb max_int64 r.revoked_at_unix_ms

-- The third loop, from the certificate before.
unfoldable pub check_revocations :
    List Active → Option Bytes → List Revocation → Result Error (Unit {0})
check_revocations active previous [] = ok tt
check_revocations active previous (r ∷ rs) = do
  refuse_if (is_bad_revocation r) bad_revocation
  refuse_if (not (follows previous r.certificate_id)) unsorted
  refuse_if (is_active_id active r.certificate_id) active_revoked
  check_revocations active (some r.certificate_id) rs

unfoldable pub validate_workspace_roster : Primitives → Roster → Bytes → Result Error (Unit {0})
validate_workspace_roster p v key = do
  refuse_if (has_unknown v.unknown) missing_or_unknown
  refuse_if
      (not (v.version == protocol_version)
        || is_bad_id identifier_size v.workspace_id
        || v.roster_epoch == 0
        || ltb max_int64 v.roster_epoch)
      bad_version
  refuse_if
      (not (length v.previous_roster_digest == digest_size)
        || v.roster_epoch == 1 && not (all_zero v.previous_roster_digest)
        || ltb 1 v.roster_epoch && all_zero v.previous_roster_digest)
      bad_previous_digest
  refuse_if (ltb max_active_certificates (length v.active_certificates)) too_many
  active ← check_certificates p v key [] v.active_certificates
  refuse_if
      (ltb max_certificate_transitions (length v.certificate_transitions)
        || v.roster_epoch == 1 && not (length v.certificate_transitions == 0))
      too_many
  check_transitions v active none v.certificate_transitions
  refuse_if (ltb max_revocations (length v.revocations)) too_many
  check_revocations active none v.revocations

unfoldable pub validate_signed_workspace_roster :
    Primitives → SignedRoster → Bytes → Result Error (Unit {0})
validate_signed_workspace_roster p v key = do
  refuse_if (has_unknown v.unknown) missing_or_unknown
  refuse_if (not (length key == authority_public_key_size)) bad_public_key
  roster ← present v.roster
  validate_workspace_roster p roster key
  encoded ← encode p.roster roster
  refuse_if (not (equal v.roster_digest (domain_hash p roster_digest_domain encoded))) bad_digest
  refuse_if
      (not (length v.authority_signature == signature_size)
        || not (p.verify key (domain_bytes roster_signature_domain encoded) v.authority_signature))
      bad_signature

unfoldable pub sign_workspace_roster : Primitives → Roster → Bytes → Result Error SignedRoster
sign_workspace_roster p roster private_key = do
  refuse_if (not (length private_key == authority_private_key_size)) bad_private_key
  validate_workspace_roster p roster (p.public_key private_key)
  encoded ← encode p.roster roster
  let signed : SignedRoster = record {
    unknown = [];
    roster = some roster;
    roster_digest = domain_hash p roster_digest_domain encoded;
    authority_signature = p.sign private_key (domain_bytes roster_signature_domain encoded);
  }
  ok signed

unfoldable pub encode_signed_workspace_roster :
    Primitives → SignedRoster → Bytes → Result Error Bytes
encode_signed_workspace_roster p v key = do
  validate_signed_workspace_roster p v key
  encode p.signed_roster v

unfoldable pub decode_signed_workspace_roster :
    Primitives → Bytes → Bytes → Result Error SignedRoster
decode_signed_workspace_roster p encoded key = do
  v ← decode_canonical p.signed_roster encoded
  validate_signed_workspace_roster p v key
  ok v

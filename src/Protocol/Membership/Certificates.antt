-- ===== src/Protocol/Membership/Certificates.antt =====
-- protocol/membershipcodec/membership.go: device certificates and their change of display name.
use seven_mirror_server.Common.{
  ℕ, Bool, true, ◌||◌, ◌&&◌, not, Option, none, some, List, [], ◌∷◌, ltb, leb, ◌==◌, length,
}
use seven_mirror_server.Common.Bytes.{Bytes, equal}
use seven_mirror_server.Common.Result.{Result, ok, err, ◌>>=◌, ◌>>◌, refuse_if}
use seven_mirror_server.Protocol.RoutingHeader.{max_int64}
use seven_mirror_server.Protocol.Membership.{
  Certificate, SignedCertificate, CertificateTransition, Primitives, Error, missing_or_unknown,
  bad_version, bad_device_type, bad_display_name, bad_roles, bad_identity_key, bad_time,
  bad_private_key, bad_public_key, bad_digest, bad_signature, bad_transition,
  protected_field_changed, encode, decode_canonical, domain_bytes, domain_hash, validate_binding,
  has_unknown, protocol_version, p256_public_key_size, signature_size, authority_public_key_size,
  authority_private_key_size, max_display_name_bytes,
}
use seven_mirror_server.Protocol.Membership.Domains.{
  certificate_id_domain, certificate_signature_domain,
}

-- DeviceType_DEVICE_TYPE_ANDROID, DeviceType_DEVICE_TYPE_CHROME
abbrev device_type_android : ℕ
device_type_android = 1

abbrev device_type_chrome : ℕ
device_type_chrome = 2

-- DeviceRole_DEVICE_ROLE_SEND_NOTIFICATIONS, DeviceRole_DEVICE_ROLE_MANAGE_DEVICES
abbrev first_role : ℕ
first_role = 1

abbrev last_role : ℕ
last_role = 4

-- DEVICE_CERTIFICATE_TRANSITION_REASON_DISPLAY_NAME
abbrev pub reason_display_name : ℕ
reason_display_name = 1

-- The loop over the roles, from the one before.
unfoldable pub are_roles : ℕ → List ℕ → Bool
are_roles previous [] = true
are_roles previous (role ∷ roles) =
    not (ltb role first_role || ltb last_role role || leb role previous) && are_roles role roles

abbrev is_empty : {A : Type 0} → List A → Bool
is_empty l = length l == 0

unfoldable pub validate_device_certificate : Primitives → Certificate → Result Error (Unit {0})
validate_device_certificate p v = do
  refuse_if (has_unknown v.unknown) missing_or_unknown
  refuse_if (not (v.version == protocol_version)) bad_version
  validate_binding v.workspace_id v.device_id v.identity_key_id
  refuse_if
      (not (v.device_type == device_type_android) && not (v.device_type == device_type_chrome))
      bad_device_type
  refuse_if
      (not (p.is_valid_utf8 v.display_name)
        || is_empty (p.trim_space v.display_name)
        || ltb max_display_name_bytes (length v.display_name))
      bad_display_name
  refuse_if (is_empty v.roles) bad_roles
  refuse_if (not (are_roles 0 v.roles)) bad_roles
  refuse_if
      (not (length v.identity_public_key == p256_public_key_size)
        || not (p.is_point v.identity_public_key))
      bad_identity_key
  refuse_if (not (equal v.identity_key_id (p.sum256 v.identity_public_key))) bad_identity_key
  refuse_if
      (v.issued_at_unix_ms == 0
        || ltb max_int64 v.issued_at_unix_ms
        || ltb max_int64 v.expires_at_unix_ms
        || not (v.expires_at_unix_ms == 0) && leb v.expires_at_unix_ms v.issued_at_unix_ms
        || v.membership_epoch == 0
        || ltb max_int64 v.membership_epoch)
      bad_time

-- A message that may be absent.
abbrev pub present : {A : Type 0} → Option A → Result Error A
present none = err missing_or_unknown
present (some a) = ok a

unfoldable pub validate_signed_device_certificate :
    Primitives → SignedCertificate → Bytes → Result Error (Unit {0})
validate_signed_device_certificate p v key = do
  refuse_if (has_unknown v.unknown) missing_or_unknown
  refuse_if (not (length key == authority_public_key_size)) bad_public_key
  certificate ← present v.certificate
  validate_device_certificate p certificate
  encoded ← encode p.certificate certificate
  refuse_if (not (equal v.certificate_id (domain_hash p certificate_id_domain encoded))) bad_digest
  refuse_if
      (not (length v.authority_signature == signature_size)
        || not (
            p.verify key (domain_bytes certificate_signature_domain encoded) v.authority_signature))
      bad_signature

unfoldable pub sign_device_certificate :
    Primitives → Certificate → Bytes → Result Error SignedCertificate
sign_device_certificate p certificate private_key = do
  validate_device_certificate p certificate
  refuse_if (not (length private_key == authority_private_key_size)) bad_private_key
  encoded ← encode p.certificate certificate
  let signed : SignedCertificate = record {
    unknown = [];
    certificate = some certificate;
    certificate_id = domain_hash p certificate_id_domain encoded;
    authority_signature = p.sign private_key (domain_bytes certificate_signature_domain encoded);
  }
  ok signed

unfoldable pub encode_signed_device_certificate :
    Primitives → SignedCertificate → Bytes → Result Error Bytes
encode_signed_device_certificate p v key = do
  validate_signed_device_certificate p v key
  encode p.signed_certificate v

unfoldable pub decode_signed_device_certificate :
    Primitives → Bytes → Bytes → Result Error SignedCertificate
decode_signed_device_certificate p encoded key = do
  v ← decode_canonical p.signed_certificate encoded
  validate_signed_device_certificate p v key
  ok v

-- `proto.Equal` once the display name, the issue time and the epoch are cleared. Unknown fields are
-- compared as the bytes in which they stand, where `proto.Equal` compares them number by number.
unfoldable pub same_protected : Certificate → Certificate → Bool
same_protected a b =
    equal a.unknown b.unknown
    && a.version == b.version
    && equal a.workspace_id b.workspace_id
    && equal a.device_id b.device_id
    && a.device_type == b.device_type
    && equal a.roles b.roles
    && equal a.identity_public_key b.identity_public_key
    && equal a.identity_key_id b.identity_key_id
    && a.expires_at_unix_ms == b.expires_at_unix_ms

-- The binding of a display name's transition to the certificates.
unfoldable pub is_bound_transition :
    SignedCertificate → SignedCertificate → CertificateTransition → Certificate → Certificate → Bool
is_bound_transition previous current t old new =
    equal t.workspace_id old.workspace_id
    && equal t.device_id old.device_id
    && equal old.workspace_id new.workspace_id
    && equal old.device_id new.device_id
    && equal t.previous_certificate_id previous.certificate_id
    && equal t.new_certificate_id current.certificate_id
    && t.reason == reason_display_name
    && not (equal old.display_name new.display_name)
    && new.membership_epoch == t.activation_roster_epoch
    && new.issued_at_unix_ms == t.issued_at_unix_ms

unfoldable pub validate_display_name_certificate_transition :
    SignedCertificate → SignedCertificate → CertificateTransition → Result Error (Unit {0})
validate_display_name_certificate_transition previous current t = do
  old ← present previous.certificate
  new ← present current.certificate
  refuse_if (not (is_bound_transition previous current t old new)) bad_transition
  refuse_if (not (same_protected old new)) protected_field_changed

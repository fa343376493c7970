-- ===== src/Protocol/Membership.antt =====
-- protocol/membershipcodec/membership.go: the signed messages by which an authority runs a workspace.
-- The messages are the records of protocol/proto/membership/v1/membership.proto. Their wire format
-- is protobuf's: a message has a codec, which like the hash, the signatures, the curve and the text
-- functions is a parameter. `unknown` is what a decoder found beyond the schema. A nested message may
-- be absent; elements of lists are not. A number of an enum is its value, and a negative one, which
-- every check refuses, is left out.
pub mod Domains
pub mod Identity
pub mod Certificates
pub mod Rosters
pub mod Authority
pub mod Canonical
pub mod Active
pub mod Signing
pub mod Naming
pub mod Examples
use seven_mirror_server.Common.{
  ℕ, ◌*◌, ◌^◌, Bool, ◌||◌, not, Option, none, some, List, ◌++◌, ltb, ◌==◌, length, if◌then◌else◌,
}
use seven_mirror_server.Common.Bytes.{Bytes, equal, all_zero}
use seven_mirror_server.Common.Result.{Result, ok, err, ◌>>=◌, ◌>>◌, refuse_if}

abbrev pub protocol_version : ℕ
protocol_version = 1

abbrev pub identifier_size : ℕ
identifier_size = 16

abbrev pub digest_size : ℕ
digest_size = 32

abbrev pub p256_public_key_size : ℕ
p256_public_key_size = 65

abbrev pub signature_size : ℕ
signature_size = 64

-- The sizes of crypto/ed25519.
abbrev pub authority_public_key_size : ℕ
authority_public_key_size = 32

abbrev pub authority_private_key_size : ℕ
authority_private_key_size = 64

abbrev pub max_display_name_bytes : ℕ
max_display_name_bytes = 100

abbrev pub max_membership_message_size : ℕ
max_membership_message_size = 2 ^ 20

abbrev pub max_active_certificates : ℕ
max_active_certificates = 256

abbrev pub max_certificate_transitions : ℕ
max_certificate_transitions = 256

abbrev pub max_revocations : ℕ
max_revocations = 4096

-- `MaxChallengeLifetime/time.Millisecond`
abbrev pub max_challenge_lifetime : ℕ
max_challenge_lifetime = 10 * 60 * 1000

pub record Challenge : Type 0 where
  pub unknown : Bytes
  pub version : ℕ
  pub workspace_id : Bytes
  pub device_id : Bytes
  pub identity_key_id : Bytes
  pub challenge_secret : Bytes
  pub issued_at_unix_ms : ℕ
  pub expires_at_unix_ms : ℕ

pub record Proof : Type 0 where
  pub unknown : Bytes
  pub version : ℕ
  pub workspace_id : Bytes
  pub device_id : Bytes
  pub identity_key_id : Bytes
  pub challenge_digest : Bytes
  pub challenge_secret : Bytes

pub record Certificate : Type 0 where
  pub unknown : Bytes
  pub version : ℕ
  pub workspace_id : Bytes
  pub device_id : Bytes
  pub device_type : ℕ
  pub display_name : Bytes
  pub roles : List ℕ
  pub identity_public_key : Bytes
  pub identity_key_id : Bytes
  pub issued_at_unix_ms : ℕ
  pub expires_at_unix_ms : ℕ
  pub membership_epoch : ℕ

pub record SignedCertificate : Type 0 where
  pub unknown : Bytes
  pub certificate : Option Certificate
  pub certificate_id : Bytes
  pub authority_signature : Bytes

pub record Revocation : Type 0 where
  pub unknown : Bytes
  pub certificate_id : Bytes
  pub device_id : Bytes
  pub revoked_at_unix_ms : ℕ

pub record CertificateTransition : Type 0 where
  pub unknown : Bytes
  pub version : ℕ
  pub workspace_id : Bytes
  pub device_id : Bytes
  pub previous_certificate_id : Bytes
  pub new_certificate_id : Bytes
  pub activation_roster_epoch : ℕ
  pub previous_roster_digest : Bytes
  pub reason : ℕ
  pub issued_at_unix_ms : ℕ

pub record Roster : Type 0 where
  pub unknown : Bytes
  pub version : ℕ
  pub workspace_id : Bytes
  pub roster_epoch : ℕ
  pub previous_roster_digest : Bytes
  pub active_certificates : List SignedCertificate
  pub revocations : List Revocation
  pub certificate_transitions : List CertificateTransition

pub record SignedRoster : Type 0 where
  pub unknown : Bytes
  pub roster : Option Roster
  pub roster_digest : Bytes
  pub authority_signature : Bytes

pub record AuthorityTransition : Type 0 where
  pub unknown : Bytes
  pub version : ℕ
  pub workspace_id : Bytes
  pub transition_epoch : ℕ
  pub previous_transition_digest : Bytes
  pub previous_authority_public_key : Bytes
  pub new_authority_public_key : Bytes
  pub activation_roster_epoch : ℕ
  pub previous_roster_digest : Bytes
  pub issued_at_unix_ms : ℕ

pub record SignedAuthorityTransition : Type 0 where
  pub unknown : Bytes
  pub transition : Option AuthorityTransition
  pub transition_digest : Bytes
  pub previous_authority_signature : Bytes
  pub new_authority_signature : Bytes

-- `proto.MarshalOptions{Deterministic: true}` and `proto.UnmarshalOptions` on one message type.
pub record Codec (A : Type 0) : Type 0 where
  pub marshal : A → Option Bytes
  pub unmarshal : Bytes → Option A

-- The codecs, crypto/sha256, crypto/ed25519, `elliptic.Unmarshal`, unicode/utf8 and TrimSpace.
pub record Primitives : Type 0 where
  pub challenge : Codec Challenge
  pub proof : Codec Proof
  pub certificate : Codec Certificate
  pub signed_certificate : Codec SignedCertificate
  pub roster : Codec Roster
  pub signed_roster : Codec SignedRoster
  pub transition : Codec AuthorityTransition
  pub signed_transition : Codec SignedAuthorityTransition
  pub sum256 : Bytes → Bytes
  pub sign : Bytes → Bytes → Bytes
  pub verify : Bytes → Bytes → Bytes → Bool
  pub public_key : Bytes → Bytes
  pub is_point : Bytes → Bool
  pub is_valid_utf8 : Bytes → Bool
  pub trim_space : Bytes → Bytes

pub data Error : Type 0 where
  unencodable undecodable bad_size not_canonical : Error
  missing_or_unknown bad_version bad_binding bad_secret bad_lifetime : Error
  bad_private_key bad_public_key bad_device_type bad_display_name bad_roles : Error
  bad_identity_key bad_time bad_digest bad_signature bad_epoch bad_previous_digest : Error
  too_many unbound_certificate unsorted bad_transition inactive_replacement : Error
  bad_revocation active_revoked bad_key_binding protected_field_changed mismatch : Error

unfoldable pub encode : {A : Type 0} → Codec A → A → Result Error Bytes
encode c value = elim (c.marshal value) [
  | none ↦ err unencodable
  | some encoded ↦
      if length encoded == 0 || ltb max_membership_message_size (length encoded)
      then err bad_size
      else ok encoded
]

-- What was decoded is marshalled again and compared.
abbrev pub recheck : {A : Type 0} → Bytes → A → Option Bytes → Result Error A
recheck encoded value none = err unencodable
recheck encoded value (some canonical) =
    if equal canonical encoded then ok value else err not_canonical

unfoldable pub decode_canonical : {A : Type 0} → Codec A → Bytes → Result Error A
decode_canonical c encoded =
    if length encoded == 0 || ltb max_membership_message_size (length encoded)
    then err bad_size
    else (elim (c.unmarshal encoded) [
      | none ↦ err undecodable
      | some value ↦ recheck encoded value (c.marshal value)
    ])

abbrev pub domain_bytes : Bytes → Bytes → Bytes
domain_bytes domain encoded = domain ++ encoded

abbrev pub domain_hash : Primitives → Bytes → Bytes → Bytes
domain_hash p domain encoded = p.sum256 (domain_bytes domain encoded)

-- `len(id) != size || allZero(id)`
abbrev pub is_bad_id : ℕ → Bytes → Bool
is_bad_id size id = not (length id == size) || all_zero id

abbrev pub validate_binding : Bytes → Bytes → Bytes → Result Error (Unit {0})
validate_binding workspace_id device_id identity_key_id =
    refuse_if
      (is_bad_id identifier_size workspace_id
        || is_bad_id identifier_size device_id
        || is_bad_id digest_size identity_key_id)
      bad_binding

-- `len(value.ProtoReflect().GetUnknown()) != 0`
abbrev pub has_unknown : Bytes → Bool
has_unknown unknown = not (length unknown == 0)

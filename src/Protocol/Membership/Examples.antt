-- ===== src/Protocol/Membership/Examples.antt =====
-- A workspace with one device, whose name changes and whose authority is replaced. The primitives
-- are stand-ins that keep to the laws.
use seven_mirror_server.Common.{
  ℕ, ◌≡◌, ◌≢◌, refl, ap, Bool, true, false, ◌&&◌, Option, none, some, List, [], ◌∷◌, ◌++◌, arith,
  length-take, length-replicate, replicate, take, ◌==◌, if◌then◌else◌, Bool-cases, inl, inr,
}
use seven_mirror_server.Common.Bytes.{Bytes, equal, equal_iff, all_zero}
use seven_mirror_server.Common.Result.{ok}
use seven_mirror_server.Protocol.Membership.{
  Certificate, SignedCertificate, CertificateTransition, Roster, SignedRoster, AuthorityTransition,
  SignedAuthorityTransition, Codec, Primitives, encode,
}
use seven_mirror_server.Protocol.Membership.Certificates.{
  validate_device_certificate, validate_signed_device_certificate, are_roles, same_protected,
  is_bound_transition, validate_display_name_certificate_transition,
}
use seven_mirror_server.Protocol.Membership.Rosters.{
  validate_workspace_roster, validate_signed_workspace_roster, sign_workspace_roster,
  encode_signed_workspace_roster, decode_signed_workspace_roster, check_certificate,
  check_certificates, check_transitions, check_revocations, is_active_id,
}
use seven_mirror_server.Protocol.Membership.Authority.{
  validate_authority_key_transition, validate_signed_authority_key_transition,
  sign_authority_key_transition,
}
use seven_mirror_server.Protocol.Membership.Canonical.{IsCodec, encode_iff_decode_signed_roster}
use seven_mirror_server.Protocol.Membership.Active.{IsRoster, validate_workspace_roster-IsRoster}
use seven_mirror_server.Protocol.Membership.Signing.{
  IsEd25519, sign_workspace_roster-valid, sign_authority_key_transition-valid,
}
use seven_mirror_server.Protocol.Membership.Naming.{
  IsRenaming, validate_display_name_certificate_transition_iff,
}

abbrev workspace : Bytes
workspace = replicate 16 1

abbrev seed : Bytes
seed = replicate 32 1

abbrev next_seed : Bytes
next_seed = replicate 32 2

-- A stand-in that makes a key of a seed by writing it twice.
abbrev new_key_from_seed : Bytes → Bytes
new_key_from_seed bytes = bytes ++ bytes

abbrev key : Bytes
key = new_key_from_seed seed

abbrev next_key : Bytes
next_key = new_key_from_seed next_seed

abbrev device : Certificate
device = record {
  unknown = [];
  version = 1;
  workspace_id = workspace;
  device_id = replicate 16 2;
  device_type = 1;
  display_name = 80 ∷ [];
  roles = 1 ∷ 2 ∷ [];
  identity_public_key = replicate 65 4;
  identity_key_id = replicate 32 9;
  issued_at_unix_ms = 1000;
  expires_at_unix_ms = 0;
  membership_epoch = 1;
}

abbrev renamed_device : Certificate
renamed_device = record device {
  display_name = 81 ∷ [];
  issued_at_unix_ms = 2000;
  membership_epoch = 2;
}

abbrev signed : Bytes → Certificate → SignedCertificate
signed id certificate = record {
  unknown = [];
  certificate = some certificate;
  certificate_id = id;
  authority_signature = replicate 64 0;
}

abbrev roster : Roster
roster = record {
  unknown = [];
  version = 1;
  workspace_id = workspace;
  roster_epoch = 1;
  previous_roster_digest = replicate 32 0;
  active_certificates = signed (replicate 32 9) device ∷ [];
  revocations =
      record {
        unknown = [];
        certificate_id = replicate 32 7;
        device_id = replicate 16 5;
        revoked_at_unix_ms = 900;
      }
      ∷ [];
  certificate_transitions = [];
}

abbrev empty_roster : Roster
empty_roster = record roster { active_certificates = []; revocations = [] }

abbrev signed_empty_roster : SignedRoster
signed_empty_roster = record {
  unknown = [];
  roster = some empty_roster;
  roster_digest = replicate 32 9;
  authority_signature = replicate 64 0;
}

abbrev is_nil : {A : Type 0} → List A → Bool
is_nil [] = true
is_nil (x ∷ xs) = false

abbrev is_empty_roster : Roster → Bool
is_empty_roster r =
    equal r.unknown []
    && r.version == 1
    && equal r.workspace_id workspace
    && r.roster_epoch == 1
    && equal r.previous_roster_digest (replicate 32 0)
    && is_nil r.active_certificates
    && is_nil r.revocations
    && is_nil r.certificate_transitions

abbrev is_some_empty : Option Roster → Bool
is_some_empty none = false
is_some_empty (some r) = is_empty_roster r

abbrev is_signed_empty : SignedRoster → Bool
is_signed_empty v =
    equal v.unknown []
    && is_some_empty v.roster
    && equal v.roster_digest (replicate 32 9)
    && equal v.authority_signature (replicate 64 0)

is_nil-eq : {A : Type 0} (l : List A) → is_nil l ≡ true → l ≡ []
is_nil-eq [] e = refl
is_nil-eq (x ∷ xs) e = cc

is_empty_roster-eq : (r : Roster) → is_empty_roster r ≡ true → r ≡ empty_roster
is_empty_roster-eq r e = ground (
  arith,
  equal_iff r.unknown [],
  equal_iff r.workspace_id workspace,
  equal_iff r.previous_roster_digest (replicate 32 0),
  is_nil-eq r.active_certificates,
  is_nil-eq r.revocations,
  is_nil-eq r.certificate_transitions,
)

is_some_empty-eq : (o : Option Roster) → is_some_empty o ≡ true → o ≡ some empty_roster
is_some_empty-eq none e = cc
is_some_empty-eq (some r) e = ap some (is_empty_roster-eq r e)

is_signed_empty-eq : (v : SignedRoster) → is_signed_empty v ≡ true → v ≡ signed_empty_roster
is_signed_empty-eq v e = ground (
  arith,
  equal_iff v.unknown [],
  is_some_empty-eq v.roster,
  equal_iff v.roster_digest (replicate 32 9),
  equal_iff v.authority_signature (replicate 64 0),
)

-- A codec that knows one signed roster.
abbrev one_roster : Codec SignedRoster
one_roster = record {
  marshal = λ v. if is_signed_empty v then some (8 ∷ []) else none;
  unmarshal = λ bs. if equal bs (8 ∷ []) then some signed_empty_roster else none;
}

one_roster-IsCodec : IsCodec one_roster
one_roster-IsCodec = record {
  back = λ v bs e. elim (Bool-cases (is_signed_empty v)) [
    | inl same ↦ ground (arith, is_signed_empty-eq v, equal_iff bs (8 ∷ []))
    | inr other ↦ absurd (ground (arith, other))
  ];
}

abbrev constant : {A : Type 0} → Codec A
constant = record { marshal = λ v. some (8 ∷ []); unmarshal = λ bs. none }

abbrev primitives : Primitives
primitives = record {
  challenge = constant;
  proof = constant;
  certificate = constant;
  signed_certificate = constant;
  roster = constant;
  signed_roster = one_roster;
  transition = constant;
  signed_transition = constant;
  sum256 = λ bs. replicate 32 9;
  sign = λ key message. replicate 64 0;
  verify = λ key message signature. true;
  public_key = take 32;
  is_point = λ bs. true;
  is_valid_utf8 = λ bs. true;
  trim_space = λ bs. bs;
}

primitives-IsEd25519 : IsEd25519 primitives new_key_from_seed
primitives-IsEd25519 = record {
  signature = λ key message size. length-replicate {A = ℕ} 64 0;
  public = λ key size. omega (arith, length-take 32 key, size);
  verified = λ seed message size. refl;
}

validate_workspace_roster-IsRoster_example : IsRoster primitives roster (replicate 32 1)
unfolding validate_workspace_roster check_certificates check_certificate check_transitions
    check_revocations validate_signed_device_certificate validate_device_certificate are_roles
    encode equal all_zero is_active_id
validate_workspace_roster-IsRoster_example =
    validate_workspace_roster-IsRoster primitives roster (replicate 32 1) refl

empty_encoded :
    encode_signed_workspace_roster primitives signed_empty_roster (replicate 32 1) ≡ ok (8 ∷ [])
unfolding encode_signed_workspace_roster validate_signed_workspace_roster validate_workspace_roster
    check_certificates check_transitions check_revocations encode equal all_zero
empty_encoded = refl

encode_iff_decode_signed_roster_example :
    decode_signed_workspace_roster primitives (8 ∷ []) (replicate 32 1) ≡ ok signed_empty_roster
encode_iff_decode_signed_roster_example =
    (encode_iff_decode_signed_roster primitives signed_empty_roster (8 ∷ []) (replicate 32 1)
        one_roster-IsCodec).0
      empty_encoded

empty_signed : sign_workspace_roster primitives empty_roster key ≡ ok signed_empty_roster
unfolding sign_workspace_roster validate_workspace_roster check_certificates check_transitions
    check_revocations encode equal all_zero
empty_signed = refl

sign_workspace_roster-valid_example :
    (validate_signed_workspace_roster primitives signed_empty_roster (take 32 key) ≡ ok tt)
    × (◌≡◌ {A = Option Roster} (some empty_roster) (some empty_roster))
sign_workspace_roster-valid_example =
    sign_workspace_roster-valid primitives new_key_from_seed empty_roster seed signed_empty_roster
      primitives-IsEd25519 refl empty_signed

abbrev handover : AuthorityTransition
handover = record {
  unknown = [];
  version = 1;
  workspace_id = workspace;
  transition_epoch = 2;
  previous_transition_digest = replicate 32 0;
  previous_authority_public_key = replicate 32 1;
  new_authority_public_key = replicate 32 2;
  activation_roster_epoch = 2;
  previous_roster_digest = replicate 32 9;
  issued_at_unix_ms = 3000;
}

abbrev signed_handover : SignedAuthorityTransition
signed_handover = record {
  unknown = [];
  transition = some handover;
  transition_digest = replicate 32 9;
  previous_authority_signature = replicate 64 0;
  new_authority_signature = replicate 64 0;
}

handover_signed :
    sign_authority_key_transition primitives handover key next_key ≡ ok signed_handover
unfolding sign_authority_key_transition validate_authority_key_transition encode equal all_zero
handover_signed = refl

sign_authority_key_transition-valid_example :
    (validate_signed_authority_key_transition primitives signed_handover ≡ ok tt)
    × (◌≡◌ {A = Option AuthorityTransition} (some handover) (some handover))
    × (replicate 32 1 ≡ take 32 key)
    × (replicate 32 2 ≡ take 32 next_key)
    × (take 32 key ≢ take 32 next_key)
sign_authority_key_transition-valid_example =
    sign_authority_key_transition-valid primitives new_key_from_seed handover seed next_seed
      signed_handover primitives-IsEd25519 refl refl handover_signed

abbrev renaming : CertificateTransition
renaming = record {
  unknown = [];
  version = 1;
  workspace_id = workspace;
  device_id = replicate 16 2;
  previous_certificate_id = replicate 32 7;
  new_certificate_id = replicate 32 9;
  activation_roster_epoch = 2;
  previous_roster_digest = replicate 32 9;
  reason = 1;
  issued_at_unix_ms = 2000;
}

validate_display_name_certificate_transition_iff_example :
    (old : Certificate) × (new : Certificate) × IsRenaming
      (signed (replicate 32 7) device)
      (signed (replicate 32 9) renamed_device)
      renaming
      old
      new
unfolding validate_display_name_certificate_transition is_bound_transition same_protected equal
validate_display_name_certificate_transition_iff_example =
    (validate_display_name_certificate_transition_iff (signed (replicate 32 7) device)
        (signed (replicate 32 9) renamed_device) renaming).0
      refl

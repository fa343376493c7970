-- ===== src/Admission.antt =====
-- internal/admission/store.go: devices, pairing codes and credential rotation codes. Go strings are
-- their bytes. Instants are nanoseconds since Go's zero time and a negative duration is 0. A table
-- is the list of its rows, and a statement has the constraints of the schema that it can break.
-- A transaction that returns an error is rolled back, and a single UPDATE on a primary key that did
-- not affect one row has affected none, so errors carry no state. Failures of the driver, of the
-- random source and cancelled contexts are left out.
pub mod Pairing
pub mod Rotation
pub mod Access
pub mod Membership
pub mod Requests
pub mod Codes
pub mod Advances
pub mod Effects
pub mod Devices
pub mod Keys
pub mod Sessions
pub mod Examples
use seven_mirror_server.Common.{
  ℕ, ◌+◌, ◌*◌, ◌/◌, Bool, true, false, ◌||◌, ◌&&◌, not, Option, none, some, List, [], ◌∷◌, ltb,
  ◌==◌, length,
}
use seven_mirror_server.Common.Result.{Result, ok, err, refuse_if}
use seven_mirror_server.Common.Bytes.{Bytes, equal}

abbrev pub pairing_secret_bytes : ℕ
pairing_secret_bytes = 24

abbrev pub rotation_secret_bytes : ℕ
rotation_secret_bytes = 24

abbrev pub auth_token_bytes : ℕ
auth_token_bytes = 32

abbrev pub max_device_name_bytes : ℕ
max_device_name_bytes = 100

-- The size of a SHA-256 sum.
abbrev pub sum_size : ℕ
sum_size = 32

-- `24*time.Hour`
abbrev pub day : ℕ
day = 24 * 3600 * 1000000000

-- `10*time.Minute`
abbrev pub ten_minutes : ℕ
ten_minutes = 600 * 1000000000

abbrev pub unix_millis : ℕ → ℕ
unix_millis t = t / 1000000

-- What is called outside the repository: crypto/sha256, encoding/base64, crypto/elliptic,
-- unicode/utf8 and strings.TrimSpace.
pub record Platform : Type 0 where
  pub sum256 : Bytes → Bytes
  pub encode_base64 : Bytes → Bytes
  pub decode_base64 : Bytes → Option Bytes
  pub unmarshals_p256 : Bytes → Bool
  pub valid_utf8 : Bytes → Bool
  pub trim_space : Bytes → Bytes

-- `DeviceAndroid` and `DeviceChrome`, "android" and "chrome".
abbrev pub device_android : Bytes
device_android = 97 ∷ 110 ∷ 100 ∷ 114 ∷ 111 ∷ 105 ∷ 100 ∷ []

abbrev pub device_chrome : Bytes
device_chrome = 99 ∷ 104 ∷ 114 ∷ 111 ∷ 109 ∷ 101 ∷ []

pub data MembershipState : Type 0 where
  legacy_active pending_proof pending_approval approved revoked : MembershipState

-- A row of pairing_codes.
pub record PairingCode : Type 0 where
  pub code_hash : Bytes
  pub workspace_id : Bytes
  pub device_type : Bytes
  pub bound_name : Option Bytes
  pub created_at_ms : ℕ
  pub expires_at_ms : ℕ
  pub consumed_at_ms : Option ℕ

-- A row of credential_rotation_codes.
pub record RotationCode : Type 0 where
  pub code_hash : Bytes
  pub workspace_id : Bytes
  pub device_id : Bytes
  pub created_at_ms : ℕ
  pub expires_at_ms : ℕ
  pub consumed_at_ms : Option ℕ

-- A row of devices, less the columns of the membership certificate.
pub record Device : Type 0 where
  pub workspace_id : Bytes
  pub id : Bytes
  pub device_type : Bytes
  pub device_name : Bytes
  pub auth_token_hash : Bytes
  pub e2ee_public_key : Bytes
  pub registered_at_ms : ℕ
  pub last_online_at_ms : ℕ
  pub revoked_at_ms : Option ℕ
  pub credential_version : ℕ
  pub membership_state : MembershipState
  pub proof_challenge_digest : Option Bytes
  pub proof_secret_hash : Option Bytes
  pub proof_expires_at_ms : Option ℕ
  pub proof_completed_at_ms : Option ℕ
  pub last_authenticated_at_ms : Option ℕ
  pub last_activity_at_ms : Option ℕ

pub record Database : Type 0 where
  pub workspaces : List Bytes
  pub pairing_codes : List PairingCode
  pub rotation_codes : List RotationCode
  pub devices : List Device

pub data Error : Type 0 where
  invalid_pairing_code invalid_registration unauthorized invalid_rotation device_not_found : Error
  invalid_membership_proof invalid_device_type invalid_device_name invalid_ttl : Error
  ambiguous_reference challenge_failed constraint_failed authority_unavailable : Error
  authority_refused certificate_failed : Error

-- Whether a nullable column is NULL.
abbrev pub is_null {ℓ} : {A : Type ℓ} → Option A → Bool
is_null none = true
is_null (some a) = false

-- `column = value` of a nullable column.
abbrev pub column_is : Option Bytes → Bytes → Bool
column_is none value = false
column_is (some stored) value = equal stored value

-- `column > value` of a nullable column.
abbrev pub column_after : Option ℕ → ℕ → Bool
column_after none value = false
column_after (some stored) value = ltb value stored

abbrev pub is_approved : MembershipState → Bool
is_approved approved = true
is_approved legacy_active = false
is_approved pending_proof = false
is_approved pending_approval = false
is_approved revoked = false

abbrev pub is_pending_proof : MembershipState → Bool
is_pending_proof pending_proof = true
is_pending_proof approved = false
is_pending_proof legacy_active = false
is_pending_proof pending_approval = false
is_pending_proof revoked = false

-- `workspace_id = ? AND id = ?`
abbrev pub is_device : Bytes → Bytes → Device → Bool
is_device workspace_id device_id d = equal d.workspace_id workspace_id && equal d.id device_id

-- `revoked_at_ms IS NULL AND membership_state = 'approved'`
abbrev pub is_live : Device → Bool
is_live d = is_null d.revoked_at_ms && is_approved d.membership_state

unfoldable pub validate_device_type : Bytes → Result Error (Unit {0})
validate_device_type value =
    refuse_if (not (equal value device_android) && not (equal value device_chrome))
      invalid_device_type

unfoldable pub validate_device_name : Platform → Bytes → Result Error (Unit {0})
validate_device_name p value =
    refuse_if
      (not (p.valid_utf8 value)
        || length (p.trim_space value) == 0
        || ltb max_device_name_bytes (length value))
      invalid_device_name

-- "SyncNotifications-admin-device-ref-v1\x00"
abbrev pub reference_domain : Bytes
reference_domain =
    83 ∷ 121 ∷ 110 ∷ 99 ∷ 78 ∷ 111 ∷ 116 ∷ 105 ∷ 102 ∷ 105 ∷ 99 ∷ 97 ∷ 116 ∷ 105 ∷ 111 ∷ 110 ∷ 115
    ∷ 45 ∷ 97 ∷ 100 ∷ 109 ∷ 105 ∷ 110 ∷ 45 ∷ 100 ∷ 101 ∷ 118 ∷ 105 ∷ 99 ∷ 101 ∷ 45 ∷ 114 ∷ 101 ∷ 102
    ∷ 45 ∷ 118 ∷ 49 ∷ 0 ∷ []

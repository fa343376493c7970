-- ===== src/Admission/Rotation.antt =====
-- IssueCredentialRotationCode, RotateCredential and the references of the devices.
use seven_mirror_server.Common.{
  ℕ, ◌+◌, Bool, false, ◌||◌, ◌&&◌, not, Option, none, some, List, [], ◌∷◌, ◌++◌, ltb, leb, ◌==◌,
  length, take, if◌then◌else◌,
}
use seven_mirror_server.Common.Result.{Result, ok, err, ◌>>=◌, ◌>>◌, refuse_if}
use seven_mirror_server.Common.Bytes.{Bytes, equal}
use seven_mirror_server.Common.Table.{find, count, update, exists}
use seven_mirror_server.Admission.{
  Platform, RotationCode, Device, Database, Error, invalid_rotation, device_not_found, invalid_ttl,
  ambiguous_reference, constraint_failed, is_null, is_device, is_live, unix_millis, day,
  rotation_secret_bytes, auth_token_bytes, reference_domain,
}
use seven_mirror_server.Admission.Pairing.{decode_secret}

pub record CredentialRotation : Type 0 where
  pub workspace_id : Bytes
  pub device_id : Bytes
  pub current_auth_token : Bytes
  pub rotation_code : Bytes
  pub pending_auth_token : Bytes
  pub now : ℕ

abbrev pub device_reference : Platform → Bytes → Bytes → Bytes
device_reference p workspace_id device_id =
    p.encode_base64 (take 12 (p.sum256 (reference_domain ++ (workspace_id ++ device_id))))

-- A text that decodes to `size` bytes and is the encoding of them.
abbrev pub is_canonical : Platform → ℕ → Bytes → Bool
is_canonical p size value = go (p.decode_base64 value)
  where
    go : Option Bytes → Bool
    go none = false
    go (some decoded) = length decoded == size && equal (p.encode_base64 decoded) value

-- The loop over the workspace's devices, with the device matched so far.
unfoldable pub match_reference :
    Platform → Bytes → Bytes → Option Bytes → List Device → Result Error (Option Bytes)
match_reference p workspace_id reference matched [] = ok matched
match_reference p workspace_id reference matched (d ∷ ds) =
    let here =
      equal d.workspace_id workspace_id && equal (device_reference p workspace_id d.id) reference in
    let rest = match_reference p workspace_id reference (if here then some d.id else matched) ds in
    if here && not (is_null matched) then err ambiguous_reference else rest

abbrev found_device : Option Bytes → Result Error Bytes
found_device none = err device_not_found
found_device (some device_id) = ok device_id

unfoldable pub resolve_device_reference : Platform → Database → Bytes → Bytes → Result Error Bytes
resolve_device_reference p db workspace_id reference = do
  refuse_if (not (is_canonical p 12 reference)) device_not_found
  matched ← match_reference p workspace_id reference none db.devices
  found_device matched

abbrev pub is_rotation_code : Bytes → RotationCode → Bool
is_rotation_code hash c = equal c.code_hash hash

-- `secret` is what the random source gave. The INSERT takes its row from devices.
unfoldable pub issue_credential_rotation_code :
    Platform → Database → Bytes → Bytes → ℕ → ℕ → Bytes → Result Error (Bytes × Database)
issue_credential_rotation_code p db workspace_id reference now ttl secret = do
  refuse_if (ttl == 0 || ltb day ttl) invalid_ttl
  device_id ← resolve_device_reference p db workspace_id reference
  let hash = p.sum256 secret
  refuse_if (not (exists (λ d. is_device workspace_id device_id d && is_live d) db.devices))
      device_not_found
  refuse_if (exists (is_rotation_code hash) db.rotation_codes) constraint_failed
  let row : RotationCode = record {
    code_hash = hash;
    workspace_id = workspace_id;
    device_id = device_id;
    created_at_ms = unix_millis now;
    expires_at_ms = unix_millis (now + ttl);
    consumed_at_ms = none;
  }
  ok (p.encode_base64 secret, record db { rotation_codes = db.rotation_codes ++ row ∷ [] })

-- The tests of the input, up to the transaction.
unfoldable pub check_rotation : Platform → CredentialRotation → Result Error Bytes
check_rotation p input = do
  refuse_if
      (not (length input.current_auth_token == auth_token_bytes)
        || not (length input.pending_auth_token == auth_token_bytes)
        || equal input.current_auth_token input.pending_auth_token)
      invalid_rotation
  refuse_if (not (is_canonical p rotation_secret_bytes input.rotation_code)) invalid_rotation
  decode_secret p rotation_secret_bytes invalid_rotation input.rotation_code

-- The SELECT that joins the code with its device.
unfoldable pub join_device : Database → Bytes → Option (RotationCode × Device)
join_device db hash = elim (find (is_rotation_code hash) db.rotation_codes) [
  | none ↦ none
  | some c ↦ elim (find (is_device c.workspace_id c.device_id) db.devices) [
    | none ↦ none
    | some d ↦ some (c, d)
  ]
]

-- The test of the joined row, which gives the credential version.
unfoldable pub read_rotation : Platform → Database → CredentialRotation → Bytes → Result Error ℕ
read_rotation p db input hash = elim (join_device db hash) [
  | none ↦ err invalid_rotation
  | some (c, d) ↦ do
    refuse_if
        (not (is_null c.consumed_at_ms)
          || not (is_null d.revoked_at_ms)
          || leb c.expires_at_ms (unix_millis input.now)
          || not (equal c.workspace_id input.workspace_id)
          || not (equal c.device_id input.device_id)
          || not (equal d.auth_token_hash (p.sum256 input.current_auth_token))
          || ltb d.credential_version 1)
        invalid_rotation
    ok d.credential_version
]

abbrev pub is_unused : Bytes → ℕ → RotationCode → Bool
is_unused hash now c =
    is_rotation_code hash c && is_null c.consumed_at_ms && ltb now c.expires_at_ms

abbrev pub consume_rotation : ℕ → RotationCode → RotationCode
consume_rotation now c = record c { consumed_at_ms = some now }

-- The UPDATE of credential_rotation_codes.
unfoldable pub consume_rotation_code : Database → Bytes → ℕ → Result Error Database
consume_rotation_code db hash now = do
  refuse_if (not (count (is_unused hash now) db.rotation_codes == 1)) invalid_rotation
  ok (record db {
    rotation_codes = update (is_unused hash now) (consume_rotation now) db.rotation_codes;
  })

abbrev pub is_rotated : Platform → CredentialRotation → ℕ → Device → Bool
is_rotated p input version d =
    is_device input.workspace_id input.device_id d
    && equal d.auth_token_hash (p.sum256 input.current_auth_token)
    && d.credential_version == version
    && is_live d

abbrev pub rotate : Bytes → Device → Device
rotate hash d = record d { auth_token_hash = hash; credential_version = d.credential_version + 1 }

-- The UPDATE of devices, whose column auth_token_hash is UNIQUE.
unfoldable pub replace_credential :
    Platform → Database → CredentialRotation → ℕ → Result Error Database
replace_credential p db input version = do
  let hash = p.sum256 input.pending_auth_token
  refuse_if (not (count (is_rotated p input version) db.devices == 1)) invalid_rotation
  refuse_if
      (exists (λ d. equal d.auth_token_hash hash && not (is_rotated p input version d)) db.devices)
      constraint_failed
  ok (record db { devices = update (is_rotated p input version) (rotate hash) db.devices })

unfoldable pub rotate_credential :
    Platform → Database → CredentialRotation → Result Error (ℕ × Database)
rotate_credential p db input = do
  secret ← check_rotation p input
  let hash = p.sum256 secret
  version ← read_rotation p db input hash
  consumed ← consume_rotation_code db hash (unix_millis input.now)
  final ← replace_credential p consumed input version
  ok (version + 1, final)

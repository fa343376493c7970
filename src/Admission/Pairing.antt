-- ===== src/Admission/Pairing.antt =====
-- IssuePairingCode, RegisterPending and CompletePendingIdentityProof.
use seven_mirror_server.Common.{
  ℕ, ◌+◌, ◌-◌, Bool, false, ◌||◌, ◌&&◌, not, Option, none, some, [], ◌∷◌, ◌++◌, ltb, leb, ◌==◌,
  length,
}
use seven_mirror_server.Common.Result.{Result, ok, err, ◌>>=◌, ◌>>◌, refuse_if, wrap_error}
use seven_mirror_server.Common.Bytes.{Bytes, equal, byte_at, all_zero}
use seven_mirror_server.Common.Table.{find, count, update, exists}
use seven_mirror_server.Admission.{
  Platform, PairingCode, Device, Database, Error, invalid_pairing_code, invalid_registration,
  invalid_membership_proof, invalid_ttl, challenge_failed, constraint_failed, pending_proof,
  pending_approval, is_null, column_is, column_after, is_pending_proof, is_device,
  validate_device_type, validate_device_name, unix_millis, day, ten_minutes, sum_size,
  pairing_secret_bytes, auth_token_bytes,
}

pub record Registration : Type 0 where
  pub pairing_code : Bytes
  pub device_type : Bytes
  pub device_name : Bytes
  pub e2ee_public_key : Bytes
  pub now : ℕ

pub record RegisteredDevice : Type 0 where
  pub workspace_id : Bytes
  pub device_id : Bytes
  pub auth_token : Bytes

pub record PendingChallenge : Type 0 where
  pub digest : Bytes
  pub secret : Bytes
  pub expires_at : ℕ

pub record PendingIdentityProof : Type 0 where
  pub workspace_id : Bytes
  pub device_id : Bytes
  pub auth_token : Bytes
  pub challenge_digest : Bytes
  pub challenge_secret : Bytes
  pub now : ℕ

-- The caller's factory, which may be nil and may fail.
abbrev pub PendingChallengeFactory : Type 0
PendingChallengeFactory = Option (Bytes → Bytes → Option PendingChallenge)

-- `code_hash = ?`
abbrev pub is_code : Bytes → PairingCode → Bool
is_code hash c = equal c.code_hash hash

-- `NULLIF(name, '')`
abbrev pub null_if_empty : Bytes → Option Bytes
null_if_empty [] = none
null_if_empty (b ∷ bs) = some (b ∷ bs)

abbrev validate_bound_name : Platform → Bytes → Result Error (Unit {0})
validate_bound_name p [] = ok tt
validate_bound_name p (b ∷ bs) = validate_device_name p (b ∷ bs)

abbrev pub issued_code : Bytes → Bytes → Bytes → Bytes → ℕ → ℕ → PairingCode
issued_code hash workspace_id device_type bound_name now ttl = record {
  code_hash = hash;
  workspace_id = workspace_id;
  device_type = device_type;
  bound_name = null_if_empty bound_name;
  created_at_ms = unix_millis now;
  expires_at_ms = unix_millis (now + ttl);
  consumed_at_ms = none;
}

-- `secret` is what the random source gave.
unfoldable pub issue_pairing_code :
    Platform → Database → Bytes → Bytes → Bytes → ℕ → ℕ → Bytes → Result Error (Bytes × Database)
issue_pairing_code p db workspace_id device_type bound_name now ttl secret = do
  validate_device_type device_type
  validate_bound_name p bound_name
  refuse_if (ttl == 0 || ltb day ttl) invalid_ttl
  let hash = p.sum256 secret
  refuse_if
      (exists (is_code hash) db.pairing_codes || not (exists (equal workspace_id) db.workspaces))
      constraint_failed
  ok (
    p.encode_base64 secret,
    record db {
      pairing_codes =
          db.pairing_codes ++ issued_code hash workspace_id device_type bound_name now ttl ∷ [];
    },
  )

-- The decoded code, of the right size.
abbrev pub decode_secret : Platform → ℕ → Error → Bytes → Result Error Bytes
decode_secret p size e code = go (p.decode_base64 code)
  where
    go : Option Bytes → Result Error Bytes
    go none = err e
    go (some secret) = refuse_if (not (length secret == size)) e >> ok secret

-- `boundName.Valid && boundName.String != name`
abbrev is_bound_to_other : Option Bytes → Bytes → Bool
is_bound_to_other none name = false
is_bound_to_other (some bound) name = not (equal bound name)

-- The SELECT on pairing_codes and the test of its row.
unfoldable pub read_pairing_code : Database → Registration → Bytes → Result Error PairingCode
read_pairing_code db input hash = elim (find (is_code hash) db.pairing_codes) [
  | none ↦ err invalid_pairing_code
  | some c ↦ do
    refuse_if
        (not (length c.workspace_id == 16)
          || not (is_null c.consumed_at_ms)
          || leb c.expires_at_ms (unix_millis input.now)
          || not (equal c.device_type input.device_type)
          || is_bound_to_other c.bound_name input.device_name)
        invalid_pairing_code
    ok c
]

abbrev pub is_consumable : Bytes → ℕ → PairingCode → Bool
is_consumable hash now c = is_code hash c && is_null c.consumed_at_ms && ltb now c.expires_at_ms

abbrev pub consume_pairing : ℕ → PairingCode → PairingCode
consume_pairing now c = record c { consumed_at_ms = some now }

-- The UPDATE of pairing_codes.
unfoldable pub consume_pairing_code : Database → Bytes → ℕ → Result Error Database
consume_pairing_code db hash now = do
  refuse_if (not (count (is_consumable hash now) db.pairing_codes == 1)) invalid_pairing_code
  ok (record db {
    pairing_codes = update (is_consumable hash now) (consume_pairing now) db.pairing_codes;
  })

unfoldable pub make_challenge :
    PendingChallengeFactory → Bytes → Bytes → ℕ → Result Error PendingChallenge
make_challenge none workspace_id device_id now = err invalid_registration
make_challenge (some create_challenge) workspace_id device_id now =
    elim (create_challenge workspace_id device_id) [
      | none ↦ err challenge_failed
      | some c ↦ do
        refuse_if
            (not (length c.digest == sum_size)
              || all_zero c.digest
              || not (length c.secret == sum_size)
              || all_zero c.secret
              || leb c.expires_at now
              || ltb ten_minutes (c.expires_at - now))
            invalid_registration
        ok c
    ]

-- The INSERT into devices.
unfoldable pub insert_device : Database → Device → Result Error Database
insert_device db d = do
  refuse_if
      (exists (is_device d.workspace_id d.id) db.devices
        || exists (λ o. equal o.auth_token_hash d.auth_token_hash) db.devices
        || not (exists (equal d.workspace_id) db.workspaces))
      constraint_failed
  ok (record db { devices = db.devices ++ d ∷ [] })

abbrev pub pending_device :
    Platform → Registration → Bytes → Bytes → Bytes → PendingChallenge → Device
pending_device p input workspace_id device_id auth_token c = record {
  workspace_id = workspace_id;
  id = device_id;
  device_type = input.device_type;
  device_name = input.device_name;
  auth_token_hash = p.sum256 auth_token;
  e2ee_public_key = input.e2ee_public_key;
  registered_at_ms = unix_millis input.now;
  last_online_at_ms = unix_millis input.now;
  revoked_at_ms = none;
  credential_version = 1;
  membership_state = pending_proof;
  proof_challenge_digest = some c.digest;
  proof_secret_hash = some (p.sum256 c.secret);
  proof_expires_at_ms = some (unix_millis c.expires_at);
  proof_completed_at_ms = none;
  last_authenticated_at_ms = none;
  last_activity_at_ms = none;
}

-- The tests of the input, up to the transaction.
unfoldable pub check_registration :
    Platform → PendingChallengeFactory → Registration → Result Error Bytes
check_registration p create_challenge input = do
  refuse_if (is_null create_challenge) invalid_registration
  wrap_error (λ _. invalid_pairing_code) (validate_device_type input.device_type)
  wrap_error (λ _. invalid_registration) (validate_device_name p input.device_name)
  refuse_if (not (length input.e2ee_public_key == 65) || not (byte_at 0 input.e2ee_public_key == 4))
      invalid_registration
  refuse_if (not (p.unmarshals_p256 input.e2ee_public_key)) invalid_registration
  decode_secret p pairing_secret_bytes invalid_pairing_code input.pairing_code

-- `device_id` and `auth_token` are what the random source gave.
unfoldable pub register_pending :
    Platform
    → Database
    → Registration
    → PendingChallengeFactory
    → Bytes
    → Bytes
    → Result Error (RegisteredDevice × Database)
register_pending p db input create_challenge device_id auth_token = do
  secret ← check_registration p create_challenge input
  let hash = p.sum256 secret
  code ← read_pairing_code db input hash
  consumed ← consume_pairing_code db hash (unix_millis input.now)
  challenge ← make_challenge create_challenge code.workspace_id device_id input.now
  final ←
      insert_device consumed
        (pending_device p input code.workspace_id device_id auth_token challenge)
  let registered : RegisteredDevice = record {
    workspace_id = code.workspace_id;
    device_id = device_id;
    auth_token = auth_token;
  }
  ok (registered, final)

-- The WHERE clause of the UPDATE that completes a proof.
abbrev pub is_provable : Platform → PendingIdentityProof → Device → Bool
is_provable p input d =
    is_device input.workspace_id input.device_id d
    && equal d.auth_token_hash (p.sum256 input.auth_token)
    && is_pending_proof d.membership_state
    && is_null d.revoked_at_ms
    && column_after d.proof_expires_at_ms (unix_millis input.now)
    && column_is d.proof_challenge_digest input.challenge_digest
    && column_is d.proof_secret_hash (p.sum256 input.challenge_secret)

abbrev pub prove : ℕ → Device → Device
prove now d = record d {
  membership_state = pending_approval;
  proof_completed_at_ms = some now;
  proof_secret_hash = none;
}

unfoldable pub complete_pending_identity_proof :
    Platform → Database → PendingIdentityProof → Result Error Database
complete_pending_identity_proof p db input = do
  refuse_if
      (not (length input.auth_token == auth_token_bytes)
        || not (length input.challenge_digest == sum_size)
        || not (length input.challenge_secret == sum_size))
      invalid_membership_proof
  refuse_if (not (count (is_provable p input) db.devices == 1)) invalid_membership_proof
  ok (record db {
    devices = update (is_provable p input) (prove (unix_millis input.now)) db.devices;
  })

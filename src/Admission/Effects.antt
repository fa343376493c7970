-- ===== src/Admission/Effects.antt =====
-- The table of the devices after each transaction.
use seven_mirror_server.Common.{ℕ, ◌+◌, ◌≡◌, ◌⊎◌, false, [], ◌∷◌, ◌++◌, arith}
use seven_mirror_server.Common.Result.{ok}
use seven_mirror_server.Common.Bytes.{Bytes}
use seven_mirror_server.Common.Table.{update, exists}
use seven_mirror_server.Admission.{Platform, PairingCode, Database, is_device, unix_millis}
use seven_mirror_server.Admission.Pairing.{
  Registration, RegisteredDevice, PendingChallengeFactory, check_registration, read_pairing_code,
  make_challenge, PendingIdentityProof, PendingChallenge, pending_device, register_pending,
  insert_device, consume_pairing_code, issue_pairing_code, complete_pending_identity_proof,
  is_provable, prove,
}
use seven_mirror_server.Admission.Rotation.{
  CredentialRotation, resolve_device_reference, check_rotation, read_rotation,
  issue_credential_rotation_code, rotate_credential, consume_rotation_code, replace_credential,
  is_rotated, rotate,
}
use seven_mirror_server.Admission.Access.{authenticate, has_credential, sign_in}
use seven_mirror_server.Admission.Membership.{
  Signing, is_approvable, approve, is_member, is_uncertified, revoke, set_name, update_device,
  revoke_member, approve_pending_membership, rename_device, revoke_device,
}
use seven_mirror_server.Admission.Requests.{after_call, after_update}

-- What each transaction that succeeds does to the table.
pub register-devices :
    (p : Platform) (db : Database) (input : Registration) (f : PendingChallengeFactory)
    (device_id auth_token : Bytes) (r : RegisteredDevice) (next : Database)
    → register_pending p db input f device_id auth_token ≡ ok (r, next)
    → (secret : Bytes) × (code : PairingCode) × (middle : Database) × (challenge : PendingChallenge)
      × (check_registration p f input ≡ ok secret)
      × (read_pairing_code db input (p.sum256 secret) ≡ ok code)
      × (consume_pairing_code db (p.sum256 secret) (unix_millis input.now) ≡ ok middle)
      × (make_challenge f code.workspace_id device_id input.now ≡ ok challenge)
      × (exists (is_device code.workspace_id device_id) db.devices ≡ false)
      × (next.devices
          ≡ db.devices
            ++ pending_device p input code.workspace_id device_id auth_token challenge ∷ [])
unfolding register_pending consume_pairing_code insert_device
register-devices p db input f device_id auth_token r next h = ground arith

pub issue-devices :
    (p : Platform) (db : Database) (w t b : Bytes) (now ttl : ℕ) (secret : Bytes)
    → (after_call db (issue_pairing_code p db w t b now ttl secret)).devices ≡ db.devices
unfolding issue_pairing_code
issue-devices p db w t b now ttl secret = ground arith

pub issue_rotation-devices :
    (p : Platform) (db : Database) (w r : Bytes) (now ttl : ℕ) (secret : Bytes)
    → (after_call db (issue_credential_rotation_code p db w r now ttl secret)).devices ≡ db.devices
unfolding issue_credential_rotation_code
issue_rotation-devices p db w r now ttl secret = ground arith

pub complete-devices :
    (p : Platform) (db : Database) (input : PendingIdentityProof)
    → let next = (after_update db (complete_pending_identity_proof p db input)).devices in
      (next ≡ db.devices)
      ⊎ (next ≡ update (is_provable p input) (prove (unix_millis input.now)) db.devices)
unfolding complete_pending_identity_proof
complete-devices p db input = ground arith

pub rotate-devices :
    (p : Platform) (db : Database) (input : CredentialRotation) (v : ℕ) (next : Database)
    → rotate_credential p db input ≡ ok (v, next)
    → (secret : Bytes) × (version : ℕ) × (check_rotation p input ≡ ok secret)
      × (read_rotation p db input (p.sum256 secret) ≡ ok version)
      × (v ≡ version + 1)
      × (next.devices
          ≡ update
              (is_rotated p input version)
              (rotate (p.sum256 input.pending_auth_token))
              db.devices)
unfolding rotate_credential consume_rotation_code replace_credential
rotate-devices p db input v next h = ground arith

pub authenticate-devices :
    (p : Platform) (db : Database) (w i t : Bytes) (now : ℕ)
    → let next = (after_call db (authenticate p db w i t now)).devices in
      (next ≡ db.devices)
      ⊎ (next ≡ update (has_credential w i (p.sum256 t)) (sign_in (unix_millis now)) db.devices)
unfolding authenticate
authenticate-devices p db w i t now = ground arith

pub approve-devices :
    (p : Platform) (db next : Database) (w r : Bytes) (signing : Signing)
    → approve_pending_membership p db w r signing ≡ ok next
    → (i : Bytes) × (resolve_device_reference p db w r ≡ ok i)
      × (next.devices ≡ update (is_approvable w i) approve db.devices)
unfolding approve_pending_membership update_device
approve-devices p db next w r signing h = ground arith

pub rename-devices :
    (p : Platform) (db next : Database) (w r name : Bytes) (signing : Signing)
    → rename_device p db w r name signing ≡ ok next
    → (i : Bytes) × (resolve_device_reference p db w r ≡ ok i)
      × (next.devices ≡ update (is_member w i) (set_name name) db.devices)
unfolding rename_device update_device
rename-devices p db next w r name signing h = ground arith

pub revoke-devices :
    (p : Platform) (db next : Database) (w r : Bytes) (signing : Signing) (now : ℕ)
    → revoke_device p db w r signing now ≡ ok next
    → (i : Bytes) × (resolve_device_reference p db w r ≡ ok i)
      × ((next.devices ≡ db.devices)
          ⊎ ((next.devices ≡ update (is_uncertified w i) (revoke (unix_millis now)) db.devices)
              ⊎ (next.devices ≡ update (is_member w i) (revoke (unix_millis now)) db.devices)))
unfolding revoke_device revoke_member update_device
revoke-devices p db next w r signing now h = ground arith

-- ===== src/Admission/Codes.antt =====
-- A pairing code registers one device at most.
use seven_mirror_server.Common.{
  ℕ, ◌≡◌, refl, true, false, some, List, [], ◌∷◌, ◌++◌, arith, ltb, ◌==◌, inl, inr, Bool-cases,
  if◌then◌else◌,
}
use seven_mirror_server.Common.Result.{Result, ok, err, ◌>>◌}
use seven_mirror_server.Common.Bytes.{Bytes}
use seven_mirror_server.Common.Table.{find, count, update, find-some, find-append, find-update}
use seven_mirror_server.Admission.{
  Platform, PairingCode, Database, Error, invalid_pairing_code, is_null, validate_device_type,
  validate_device_name, pairing_secret_bytes, unix_millis,
}
use seven_mirror_server.Admission.Pairing.{
  Registration, RegisteredDevice, PendingChallengeFactory, is_code, issued_code, is_consumable,
  consume_pairing, decode_secret, check_registration, read_pairing_code, consume_pairing_code,
  insert_device, register_pending, issue_pairing_code, complete_pending_identity_proof,
}
use seven_mirror_server.Admission.Rotation.{
  issue_credential_rotation_code, rotate_credential, consume_rotation_code, replace_credential,
}
use seven_mirror_server.Admission.Access.{authenticate, record_device_activity}
use seven_mirror_server.Admission.Membership.{
  Signing, update_device, revoke_member, approve_pending_membership, rename_device, revoke_device,
}
use seven_mirror_server.Admission.Requests.{
  Request, issue_pairing, register, complete_proof, issue_rotation, rotate_token, sign_on, activity,
  approve_member, change_name, revoke_access, after_call, after_update, serve, serve_all,
}

-- The first row of the code is consumed.
pub record IsSpent (hash : Bytes) (db : Database) : Type 0 where
  pub row : PairingCode
  pub stored : find (is_code hash) db.pairing_codes ≡ some row
  pub consumed : is_null row.consumed_at_ms ≡ false

consume-IsSpent :
    (db : Database) (other : Bytes) (now : ℕ) (hash : Bytes)
    → IsSpent hash db
    → IsSpent hash (after_update db (consume_pairing_code db other now))
unfolding consume_pairing_code
consume-IsSpent db other now hash s =
    elim (Bool-cases (count (is_consumable other now) db.pairing_codes == 1)) [
      | inl one ↦
          rw (consume_pairing_code, one)
            (record {
              row = if is_consumable other now s.row then consume_pairing now s.row else s.row;
              stored =
                  find-update (is_code hash) (is_consumable other now) (consume_pairing now)
                    db.pairing_codes s.row (λ c. refl) s.stored;
              consumed = ground (arith, s.consumed);
            })
      | inr none_there ↦ rw (consume_pairing_code, none_there) s
    ]

-- What a registration that succeeds did.
register-eq-ok :
    (p : Platform) (db : Database) (input : Registration) (f : PendingChallengeFactory)
    (device_id auth_token : Bytes) (r : RegisteredDevice) (next : Database)
    → register_pending p db input f device_id auth_token ≡ ok (r, next)
    → (secret : Bytes) × (code : PairingCode) × (middle : Database) × (check_registration p f input
        ≡ ok secret)
      × (read_pairing_code db input (p.sum256 secret) ≡ ok code)
      × (consume_pairing_code db (p.sum256 secret) (unix_millis input.now) ≡ ok middle)
      × (next.pairing_codes ≡ middle.pairing_codes)
unfolding register_pending insert_device
register-eq-ok p db input f device_id auth_token r next h = ground arith

check-secret :
    (p : Platform) (f : PendingChallengeFactory) (input : Registration) (secret : Bytes)
    → check_registration p f input ≡ ok secret
    → decode_secret p pairing_secret_bytes invalid_pairing_code input.pairing_code ≡ ok secret
unfolding check_registration validate_device_type validate_device_name
check-secret p f input secret h = ground arith

IsSpent-same :
    (hash : Bytes) (db next : Database)
    → next.pairing_codes ≡ db.pairing_codes
    → IsSpent hash db
    → IsSpent hash next
IsSpent-same hash db next same s = record {
  row = s.row;
  stored = rw (same) s.stored;
  consumed = s.consumed;
}

register-IsSpent :
    (p : Platform) (db : Database) (input : Registration) (f : PendingChallengeFactory)
    (device_id auth_token : Bytes) (hash : Bytes)
    → IsSpent hash db
    → IsSpent hash (after_call db (register_pending p db input f device_id auth_token))
register-IsSpent p db input f device_id auth_token hash s =
    go (register_pending p db input f device_id auth_token) refl
  where
    go :
        (outcome : Result Error (RegisteredDevice × Database))
        → register_pending p db input f device_id auth_token ≡ outcome
        → IsSpent hash (after_call db outcome)
    go (err e) h = s
    go (ok (r, next)) h =
        let (secret, code, middle, checked, read, consumed, same) =
          register-eq-ok p db input f device_id auth_token r next h in
        let spent = consume-IsSpent db (p.sum256 secret) (unix_millis input.now) hash s in
        IsSpent-same hash middle next same (rw (consumed) at spent)

issue-codes :
    (p : Platform) (db : Database) (workspace_id device_type bound_name : Bytes) (now ttl : ℕ)
    (secret code : Bytes) (next : Database)
    → issue_pairing_code p db workspace_id device_type bound_name now ttl secret ≡ ok (code, next)
    → next.pairing_codes
      ≡ db.pairing_codes
        ++ issued_code (p.sum256 secret) workspace_id device_type bound_name now ttl ∷ []
unfolding issue_pairing_code
issue-codes p db workspace_id device_type bound_name now ttl secret code next h = ground arith

issue-IsSpent :
    (p : Platform) (db : Database) (workspace_id device_type bound_name : Bytes) (now ttl : ℕ)
    (secret hash : Bytes)
    → IsSpent hash db
    → IsSpent hash
        (after_call db (issue_pairing_code p db workspace_id device_type bound_name now ttl secret))
issue-IsSpent p db workspace_id device_type bound_name now ttl secret hash s =
    go (issue_pairing_code p db workspace_id device_type bound_name now ttl secret) refl
  where
    go :
        (outcome : Result Error (Bytes × Database))
        → issue_pairing_code p db workspace_id device_type bound_name now ttl secret ≡ outcome
        → IsSpent hash (after_call db outcome)
    go (err e) h = s
    go (ok (code, next)) h =
        let added =
          issue-codes p db workspace_id device_type bound_name now ttl secret code next h in
        record {
          row = s.row;
          stored = rw (added) (find-append (is_code hash) db.pairing_codes s.row _ s.stored);
          consumed = s.consumed;
        }

complete-codes :
    (p : Platform) (db : Database) (input : _)
    → (after_update db (complete_pending_identity_proof p db input)).pairing_codes
      ≡ db.pairing_codes
unfolding complete_pending_identity_proof
complete-codes p db input = ground arith

issue_rotation-codes :
    (p : Platform) (db : Database) (workspace_id reference : Bytes) (now ttl : ℕ) (secret : Bytes)
    → (after_call db
        (issue_credential_rotation_code p db workspace_id reference now ttl secret)).pairing_codes
      ≡ db.pairing_codes
unfolding issue_credential_rotation_code
issue_rotation-codes p db workspace_id reference now ttl secret = ground arith

rotate-codes :
    (p : Platform) (db : Database) (input : _)
    → (after_call db (rotate_credential p db input)).pairing_codes ≡ db.pairing_codes
unfolding rotate_credential consume_rotation_code replace_credential
rotate-codes p db input = ground arith

authenticate-codes :
    (p : Platform) (db : Database) (workspace_id device_id auth_token : Bytes) (now : ℕ)
    → (after_call db (authenticate p db workspace_id device_id auth_token now)).pairing_codes
      ≡ db.pairing_codes
unfolding authenticate
authenticate-codes p db workspace_id device_id auth_token now = ground arith

approve-codes :
    (p : Platform) (db : Database) (workspace_id reference : Bytes) (signing : Signing)
    → (after_update db
        (approve_pending_membership p db workspace_id reference signing)).pairing_codes
      ≡ db.pairing_codes
unfolding approve_pending_membership update_device
approve-codes p db workspace_id reference signing = ground arith

rename-codes :
    (p : Platform) (db : Database) (workspace_id reference name : Bytes) (signing : Signing)
    → (after_update db (rename_device p db workspace_id reference name signing)).pairing_codes
      ≡ db.pairing_codes
unfolding rename_device update_device
rename-codes p db workspace_id reference name signing = ground arith

revoke-codes :
    (p : Platform) (db : Database) (workspace_id reference : Bytes) (signing : Signing) (now : ℕ)
    → (after_update db (revoke_device p db workspace_id reference signing now)).pairing_codes
      ≡ db.pairing_codes
unfolding revoke_device revoke_member update_device
revoke-codes p db workspace_id reference signing now = ground arith

serve-IsSpent :
    (p : Platform) (db : Database) (q : Request) (hash : Bytes)
    → IsSpent hash db
    → IsSpent hash (serve p db q)
unfolding serve record_device_activity
serve-IsSpent p db (issue_pairing w t b now ttl secret) hash s =
    issue-IsSpent p db w t b now ttl secret hash s
serve-IsSpent p db (register input f i t) hash s = register-IsSpent p db input f i t hash s
serve-IsSpent p db (complete_proof input) hash s =
    IsSpent-same hash db _ (complete-codes p db input) s
serve-IsSpent p db (issue_rotation w r now ttl secret) hash s =
    IsSpent-same hash db _ (issue_rotation-codes p db w r now ttl secret) s
serve-IsSpent p db (rotate_token input) hash s = IsSpent-same hash db _ (rotate-codes p db input) s
serve-IsSpent p db (sign_on w i t now) hash s =
    IsSpent-same hash db _ (authenticate-codes p db w i t now) s
serve-IsSpent p db (activity w i now) hash s = IsSpent-same hash db _ refl s
serve-IsSpent p db (approve_member w r signing) hash s =
    IsSpent-same hash db _ (approve-codes p db w r signing) s
serve-IsSpent p db (change_name w r name signing) hash s =
    IsSpent-same hash db _ (rename-codes p db w r name signing) s
serve-IsSpent p db (revoke_access w r signing now) hash s =
    IsSpent-same hash db _ (revoke-codes p db w r signing now) s

serve_all-IsSpent :
    (p : Platform) (db : Database) (qs : List Request) (hash : Bytes)
    → IsSpent hash db
    → IsSpent hash (serve_all p db qs)
unfolding serve_all
serve_all-IsSpent p db [] hash s = s
serve_all-IsSpent p db (q ∷ qs) hash s =
    serve_all-IsSpent p (serve p db q) qs hash (serve-IsSpent p db q hash s)

-- A code that was read is stored, unspent and not expired.
read-eq-ok :
    (db : Database) (input : Registration) (hash : Bytes) (code : PairingCode)
    → read_pairing_code db input hash ≡ ok code
    → (find (is_code hash) db.pairing_codes ≡ some code)
      × (is_null code.consumed_at_ms ≡ true)
      × (ltb (unix_millis input.now) code.expires_at_ms ≡ true)
unfolding read_pairing_code
read-eq-ok db input hash code h = ground arith

consumed-codes :
    (db middle : Database) (hash : Bytes) (now : ℕ)
    → consume_pairing_code db hash now ≡ ok middle
    → middle.pairing_codes ≡ update (is_consumable hash now) (consume_pairing now) db.pairing_codes
unfolding consume_pairing_code
consumed-codes db middle hash now h = ground arith

-- A registration spends its code.
consume-spends :
    (db middle : Database) (input : Registration) (hash : Bytes) (code : PairingCode)
    → read_pairing_code db input hash ≡ ok code
    → consume_pairing_code db hash (unix_millis input.now) ≡ ok middle
    → IsSpent hash middle
consume-spends db middle input hash code read consumed =
    let (stored, fresh, alive) = read-eq-ok db input hash code read in
    let now = unix_millis input.now in
    let moved =
      find-update (is_code hash) (is_consumable hash now) (consume_pairing now) db.pairing_codes
        code (λ c. refl) stored in
    record {
      row = consume_pairing now code;
      stored =
          rw (consumed-codes db middle hash now consumed)
            (rw (find-some (is_code hash) db.pairing_codes code stored, fresh, alive) at moved);
      consumed = refl;
    }

spent-refused :
    (db : Database) (input : Registration) (hash : Bytes)
    → IsSpent hash db
    → read_pairing_code db input hash ≡ err invalid_pairing_code
unfolding read_pairing_code
spent-refused db input hash s = rw (s.stored, read_pairing_code) (ground (arith, s.consumed))

register-refused :
    (p : Platform) (db : Database) (input : Registration) (f : PendingChallengeFactory)
    (device_id auth_token secret : Bytes)
    → decode_secret p pairing_secret_bytes invalid_pairing_code input.pairing_code ≡ ok secret
    → read_pairing_code db input (p.sum256 secret) ≡ err invalid_pairing_code
    → register_pending p db input f device_id auth_token
      ≡ (check_registration p f input >> err invalid_pairing_code)
unfolding register_pending
register-refused p db input f device_id auth_token secret decoded unread =
    go (check_registration p f input) refl
  where
    go :
        (outcome : Result Error Bytes)
        → check_registration p f input ≡ outcome
        → register_pending p db input f device_id auth_token
          ≡ (check_registration p f input >> err invalid_pairing_code)
    go (err e) h = rw (h, register_pending) refl
    go (ok other) h =
        let one : p.sum256 other ≡ p.sum256 secret =
          ground (arith, decoded, check-secret p f input other h) in
        rw (h, register_pending, one, unread) refl

-- Once a pairing code has registered a device, then whatever requests the server runs, every
-- further registration with that code fails: with the error of its input's checks, or as an
-- invalid pairing code.
pub register_pending-once :
    (p : Platform) (db : Database) (input : Registration) (f : PendingChallengeFactory)
    (device_id auth_token : Bytes) (r : RegisteredDevice) (next : Database) (qs : List Request)
    (again : Registration) (g : PendingChallengeFactory) (i t : Bytes)
    → register_pending p db input f device_id auth_token ≡ ok (r, next)
    → again.pairing_code ≡ input.pairing_code
    → register_pending p (serve_all p next qs) again g i t
      ≡ (check_registration p g again >> err invalid_pairing_code)
unfolding register_pending
register_pending-once p db input f device_id auth_token r next qs again g i t h same =
    let (secret, code, middle, checked, read, consumed, kept) =
      register-eq-ok p db input f device_id auth_token r next h in
    let spent = serve_all-IsSpent p next qs (p.sum256 secret) (
      IsSpent-same (p.sum256 secret) middle next kept
        (consume-spends db middle input (p.sum256 secret) code read consumed)) in
    register-refused p (serve_all p next qs) again g i t secret
      (rw (same) (check-secret p f input secret checked))
      (spent-refused (serve_all p next qs) again (p.sum256 secret) spent)

-- ===== src/Admission/Sessions.antt =====
-- Sign-in, and what a rotation of the credential does to sessions.
use seven_mirror_server.Common.{
  ℕ, ◌+◌, ◌<◌, ◌≡◌, refl, sym, ap, ◌∙◌, ◌↔◌, true, false, some, List, arith, ◌==◌, ==_iff, length,
}
use seven_mirror_server.Common.Result.{ok}
use seven_mirror_server.Common.Bytes.{Bytes, equal_iff}
use seven_mirror_server.Common.Table.{find, count, update, find-some, find-update, find-stronger}
use seven_mirror_server.Admission.{
  Platform, Device, Database, is_device, is_live, unix_millis, auth_token_bytes,
}
use seven_mirror_server.Admission.Rotation.{
  CredentialRotation, rotate_credential, check_rotation, read_rotation, consume_rotation_code,
  replace_credential, is_rotated, rotate,
}
use seven_mirror_server.Admission.Access.{
  DeviceIdentity, authenticate, has_credential, identity, sign_in, is_session_authorized,
}
use seven_mirror_server.Admission.Requests.{Request, serve_all}
use seven_mirror_server.Admission.Devices.{serve_all-HasAdvanced}
use seven_mirror_server.Admission.Keys.{IsKeyed, count-key, count-one}

-- The device of a key holds a token: it is stored with the token's hash, approved and unrevoked.
pub record Holds (p : Platform) (db : Database) (w i token : Bytes) (d : Device) : Type 0 where
  pub size : length token ≡ auth_token_bytes
  pub stored : find (is_device w i) db.devices ≡ some d
  pub credential : d.auth_token_hash ≡ p.sum256 token
  pub live : is_live d ≡ true

-- The devices after a sign-in.
abbrev pub signed_in : Platform → Database → Bytes → Bytes → Bytes → ℕ → Database
signed_in p db w i token now = record db {
  devices = update (has_credential w i (p.sum256 token)) (sign_in (unix_millis now)) db.devices;
}

-- A device that holds the token signs in.
authenticate-Holds :
    (p : Platform) (db : Database) (w i token : Bytes) (now : ℕ) (d : Device)
    → IsKeyed db.devices
    → Holds p db w i token d
    → authenticate p db w i token now ≡ ok (identity w i d, signed_in p db w i token now)
unfolding authenticate
authenticate-Holds p db w i token now d keyed held =
    let reach = has_credential w i (p.sum256 token) in
    let key = find-some (is_device w i) db.devices d held.stored in
    let reached : reach d ≡ true =
      ground
        (arith, key, held.live, held.credential, equal_iff d.auth_token_hash (p.sum256 token)) in
    let one = count-key w i reach db.devices d keyed (λ x r. ground (arith, r)) held.stored in
    let found =
      find-update reach reach (sign_in (unix_millis now)) db.devices d (λ x. refl)
        (find-stronger (is_device w i) reach db.devices d (λ x r. ground (arith, r)) held.stored
          reached) in
    rw (authenticate, held.size, rw (reached) at one, rw (reached) at found) refl

authenticate-checked :
    (p : Platform) (db : Database) (w i token : Bytes) (now : ℕ) (x : DeviceIdentity × Database)
    → authenticate p db w i token now ≡ ok x
    → (length token ≡ auth_token_bytes)
      × (count (has_credential w i (p.sum256 token)) db.devices ≡ 1)
unfolding authenticate
authenticate-checked p db w i token now x h = ground (
  arith,
  ==_iff (length token) auth_token_bytes,
  ==_iff (count (has_credential w i (p.sum256 token)) db.devices) 1,
)

-- With unique keys, a sign-in succeeds exactly when the device is stored with the token's hash,
-- approved and unrevoked; it then gives the stored identity and changes only that row's times.
pub authenticate_iff :
    (p : Platform) (db : Database) (w i token : Bytes) (now : ℕ) (who : DeviceIdentity)
    (next : Database)
    → IsKeyed db.devices
    → (authenticate p db w i token now ≡ ok (who, next)) ↔ (
        (d : Device) × Holds p db w i token d
        × (who ≡ identity w i d)
        × (next ≡ signed_in p db w i token now))
authenticate_iff p db w i token now who next keyed = (
  λ h.
      let (size, one) = authenticate-checked p db w i token now (who, next) h in
      let (d, stored, reached) =
        count-one w i (has_credential w i (p.sum256 token)) db.devices keyed
          (λ x r. ground (arith, r)) one in
      let held : Holds p db w i token d = record {
        size = size;
        stored = stored;
        credential = ground (arith, reached, equal_iff d.auth_token_hash (p.sum256 token));
        live = ground (arith, reached);
      } in
      let same = sym h ∙ authenticate-Holds p db w i token now d keyed held in
      (d, held, ground (arith, same), ground (arith, same)),
  λ (d, held, same, changed).
      rw (same, changed) (authenticate-Holds p db w i token now d keyed held),
)

rotate-eq-ok :
    (p : Platform) (db : Database) (input : CredentialRotation) (v : ℕ) (next : Database)
    → rotate_credential p db input ≡ ok (v, next)
    → (secret : Bytes) × (version : ℕ) × (check_rotation p input ≡ ok secret)
      × (read_rotation p db input (p.sum256 secret) ≡ ok version)
      × (v ≡ version + 1)
      × ((count (is_rotated p input version) db.devices == 1) ≡ true)
      × (next.devices
          ≡ update
              (is_rotated p input version)
              (rotate (p.sum256 input.pending_auth_token))
              db.devices)
unfolding rotate_credential consume_rotation_code replace_credential
rotate-eq-ok p db input v next h = ground arith

-- With unique keys, a rotation that succeeds has found the device's row with the current token's
-- hash, approved and unrevoked, and leaves the same row with the pending token's hash and the next
-- version, which it returns.
pub rotate-stored :
    (p : Platform) (db : Database) (input : CredentialRotation) (v : ℕ) (next : Database)
    → IsKeyed db.devices
    → rotate_credential p db input ≡ ok (v, next)
    → (d : Device) × (find (is_device input.workspace_id input.device_id) db.devices ≡ some d)
      × (d.auth_token_hash ≡ p.sum256 input.current_auth_token)
      × (is_live d ≡ true)
      × (v ≡ d.credential_version + 1)
      × (find (is_device input.workspace_id input.device_id) next.devices
          ≡ some (rotate (p.sum256 input.pending_auth_token) d))
rotate-stored p db input v next keyed h =
    let (secret, version, checked, read, bumped, one, changed) = rotate-eq-ok p db input v next h in
    let reach = is_rotated p input version in
    let (d, stored, reached) =
      count-one input.workspace_id input.device_id reach db.devices keyed (λ x r. ground (arith, r))
        (ground (arith, one, ==_iff (count reach db.devices) 1)) in
    let moved =
      find-update (is_device input.workspace_id input.device_id) reach
        (rotate (p.sum256 input.pending_auth_token)) db.devices d (λ x. refl) stored in
    (
      d,
      stored,
      ground (arith, reached, equal_iff d.auth_token_hash (p.sum256 input.current_auth_token)),
      ground (arith, reached),
      ground (arith, bumped, reached, ==_iff d.credential_version version),
      ap (find (is_device input.workspace_id input.device_id)) changed ∙ (rw (reached) at moved),
    )

stale :
    (db : Database) (w i : Bytes) (d : Device) (u : ℕ)
    → find (is_device w i) db.devices ≡ some d
    → u < d.credential_version
    → is_session_authorized db w i u ≡ false
unfolding is_session_authorized
stale db w i d u stored old = rw (stored, is_session_authorized) (ground (arith, old))

-- With unique keys, once a rotation returned a version, sessions of that version are authorized,
-- and sessions of the device with any earlier version are refused for good, whatever requests the
-- server runs.
pub rotate_credential-sessions :
    (p : Platform) (db : Database) (input : CredentialRotation) (v : ℕ) (next : Database)
    (qs : List Request) (u : ℕ)
    → IsKeyed db.devices
    → rotate_credential p db input ≡ ok (v, next)
    → u < v
    → (is_session_authorized next input.workspace_id input.device_id v ≡ true)
      × (is_session_authorized (serve_all p next qs) input.workspace_id input.device_id u ≡ false)
unfolding is_session_authorized
rotate_credential-sessions p db input v next qs u keyed h old =
    let w = input.workspace_id in
    let i = input.device_id in
    let (d, stored, credential, live, bumped, found) = rotate-stored p db input v next keyed h in
    let (later, there, advanced) = serve_all-HasAdvanced p next qs w i _ found in
    (
      rw (found, is_session_authorized) (ground (arith, live, bumped)),
      stale (serve_all p next qs) w i later u there (omega (arith, old, bumped, advanced.version)),
    )

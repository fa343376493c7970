-- ===== src/Admission/Devices.antt =====
-- What the requests do to a device that is stored, and to the keys of the devices.
use seven_mirror_server.Common.{
  ℕ, ◌≡◌, refl, ◌⊎◌, inl, inr, Bool, true, some, List, [], ◌∷◌, ◌++◌, arith,
}
use seven_mirror_server.Common.Result.{Result, ok, err}
use seven_mirror_server.Common.Bytes.{Bytes}
use seven_mirror_server.Common.Table.{find, update, find-append}
use seven_mirror_server.Admission.{Platform, Device, Database, Error, is_device, unix_millis}
use seven_mirror_server.Admission.Pairing.{
  Registration, RegisteredDevice, PendingChallengeFactory, register_pending,
}
use seven_mirror_server.Admission.Rotation.{
  CredentialRotation, rotate_credential, is_rotated, rotate,
}
use seven_mirror_server.Admission.Access.{record_device_activity}
use seven_mirror_server.Admission.Membership.{
  is_approvable, approve, is_member, is_uncertified, revoke, set_name, approve_pending_membership,
  rename_device, revoke_device,
}
use seven_mirror_server.Admission.Requests.{
  Request, issue_pairing, register, complete_proof, issue_rotation, rotate_token, sign_on, activity,
  approve_member, change_name, revoke_access, after_call, after_update, serve, serve_all,
}
use seven_mirror_server.Admission.Advances.{
  Advances, HasAdvanced, Advances-refl, Advances-trans, prove-Advances, rotate-Advances,
  sign_in-Advances, touch-Advances, approve-Advances, revoke-Advances, set_name-Advances,
  update-Advances,
}
use seven_mirror_server.Admission.Effects.{
  register-devices, issue-devices, issue_rotation-devices, complete-devices, rotate-devices,
  authenticate-devices, approve-devices, rename-devices, revoke-devices,
}

HasAdvanced-append :
    (w i : Bytes) (d : Device) (ds next : List Device) (more : List Device)
    → next ≡ ds ++ more
    → find (is_device w i) ds ≡ some d
    → HasAdvanced w i d next
HasAdvanced-append w i d ds next more added stored =
    (d, rw (added) (find-append (is_device w i) ds d more stored), Advances-refl d)

HasAdvanced-update :
    (w i : Bytes) (reach : Device → Bool) (change : Device → Device) (d : Device)
    (ds next : List Device)
    → ((x : Device) → is_device w i (change x) ≡ is_device w i x)
    → (reach d ≡ true → Advances d (change d))
    → (next ≡ ds) ⊎ (next ≡ update reach change ds)
    → find (is_device w i) ds ≡ some d
    → HasAdvanced w i d next
HasAdvanced-update w i reach change d ds next keep advance (inl same) stored =
    (d, rw (same) stored, Advances-refl d)
HasAdvanced-update w i reach change d ds next keep advance (inr changed) stored =
    let (later, found, advanced) = update-Advances w i reach change ds d keep advance stored in
    (later, rw (changed) found, advanced)

register-HasAdvanced :
    (p : Platform) (db : Database) (input : Registration) (f : PendingChallengeFactory)
    (device_id auth_token w i : Bytes) (d : Device)
    → find (is_device w i) db.devices ≡ some d
    → HasAdvanced w i d (after_call db (register_pending p db input f device_id auth_token)).devices
register-HasAdvanced p db input f device_id auth_token w i d stored =
    go (register_pending p db input f device_id auth_token) refl
  where
    go :
        (outcome : Result Error (RegisteredDevice × Database))
        → register_pending p db input f device_id auth_token ≡ outcome
        → HasAdvanced w i d (after_call db outcome).devices
    go (err e) h = (d, stored, Advances-refl d)
    go (ok (r, next)) h =
        let (secret, code, middle, challenge, c, b, u, m, absent, added) =
          register-devices p db input f device_id auth_token r next h in
        HasAdvanced-append w i d db.devices next.devices _ added stored

rotate-HasAdvanced :
    (p : Platform) (db : Database) (input : CredentialRotation) (w i : Bytes) (d : Device)
    → find (is_device w i) db.devices ≡ some d
    → HasAdvanced w i d (after_call db (rotate_credential p db input)).devices
rotate-HasAdvanced p db input w i d stored = go (rotate_credential p db input) refl
  where
    go :
        (outcome : Result Error (ℕ × Database))
        → rotate_credential p db input ≡ outcome
        → HasAdvanced w i d (after_call db outcome).devices
    go (err e) h = (d, stored, Advances-refl d)
    go (ok (v, next)) h =
        let (secret, version, c, r, bumped, changed) = rotate-devices p db input v next h in
        HasAdvanced-update w i (is_rotated p input version)
          (rotate (p.sum256 input.pending_auth_token)) d db.devices next.devices (λ x. refl)
          (λ r. rotate-Advances _ d) (inr changed) stored

HasAdvanced-outcome :
    (db : Database) (outcome : Result Error Database) (w i : Bytes) (d : Device)
    → find (is_device w i) db.devices ≡ some d
    → ((next : Database) → outcome ≡ ok next → HasAdvanced w i d next.devices)
    → HasAdvanced w i d (after_update db outcome).devices
HasAdvanced-outcome db (err e) w i d stored h = (d, stored, Advances-refl d)
HasAdvanced-outcome db (ok next) w i d stored h = h next refl

revoke-HasAdvanced :
    (ds next : List Device) (v j : Bytes) (now : ℕ) (w i : Bytes) (d : Device)
    → (next ≡ ds)
      ⊎ ((next ≡ update (is_uncertified v j) (revoke now) ds)
          ⊎ (next ≡ update (is_member v j) (revoke now) ds))
    → find (is_device w i) ds ≡ some d
    → HasAdvanced w i d next
revoke-HasAdvanced ds next v j now w i d (inl same) stored = (d, rw (same) stored, Advances-refl d)
revoke-HasAdvanced ds next v j now w i d (inr (inl changed)) stored =
    HasAdvanced-update w i (is_uncertified v j) (revoke now) d ds next (λ x. refl)
      (λ h. revoke-Advances now d (ground (arith, h))) (inr changed) stored
revoke-HasAdvanced ds next v j now w i d (inr (inr changed)) stored =
    HasAdvanced-update w i (is_member v j) (revoke now) d ds next (λ x. refl)
      (λ h. revoke-Advances now d (ground (arith, h))) (inr changed) stored

serve-HasAdvanced :
    (p : Platform) (db : Database) (q : Request) (w i : Bytes) (d : Device)
    → find (is_device w i) db.devices ≡ some d
    → HasAdvanced w i d (serve p db q).devices
unfolding serve record_device_activity
serve-HasAdvanced p db (issue_pairing v t b now ttl secret) w i d stored =
    (d, rw (issue-devices p db v t b now ttl secret) stored, Advances-refl d)
serve-HasAdvanced p db (register input f j t) w i d stored =
    register-HasAdvanced p db input f j t w i d stored
serve-HasAdvanced p db (complete_proof input) w i d stored =
    HasAdvanced-update w i _ _ d db.devices _ (λ x. refl) (prove-Advances p input _ d)
      (complete-devices p db input) stored
serve-HasAdvanced p db (issue_rotation v r now ttl secret) w i d stored =
    (d, rw (issue_rotation-devices p db v r now ttl secret) stored, Advances-refl d)
serve-HasAdvanced p db (rotate_token input) w i d stored =
    rotate-HasAdvanced p db input w i d stored
serve-HasAdvanced p db (sign_on v j t now) w i d stored =
    HasAdvanced-update w i _ _ d db.devices _ (λ x. refl) (λ r. sign_in-Advances _ d)
      (authenticate-devices p db v j t now) stored
serve-HasAdvanced p db (activity v j now) w i d stored =
    HasAdvanced-update w i _ _ d db.devices (record_device_activity db v j now).devices (λ x. refl)
      (λ r. touch-Advances (unix_millis now) d) (inr refl) stored
serve-HasAdvanced p db (approve_member v r signing) w i d stored =
    HasAdvanced-outcome db (approve_pending_membership p db v r signing) w i d stored (λ next h.
      let (j, found, changed) = approve-devices p db next v r signing h in
      HasAdvanced-update w i (is_approvable v j) approve d db.devices next.devices (λ x. refl)
        (approve-Advances v j d) (inr changed) stored)
serve-HasAdvanced p db (change_name v r name signing) w i d stored =
    HasAdvanced-outcome db (rename_device p db v r name signing) w i d stored (λ next h.
      let (j, found, changed) = rename-devices p db next v r name signing h in
      HasAdvanced-update w i (is_member v j) (set_name name) d db.devices next.devices (λ x. refl)
        (λ h. set_name-Advances name d) (inr changed) stored)
serve-HasAdvanced p db (revoke_access v r signing now) w i d stored =
    HasAdvanced-outcome db (revoke_device p db v r signing now) w i d stored (λ next h.
      let (j, found, changed) = revoke-devices p db next v r signing now h in
      revoke-HasAdvanced db.devices next.devices v j (unix_millis now) w i d changed stored)

-- After any sequence of the modelled requests a stored device is still stored: its credential
-- version never goes down and names one token for good, a time of revocation stands, and its
-- membership stays or comes further, in the order of a pending proof, a pending approval, an
-- approval or a membership from before the approvals, and a revocation; it never becomes one from
-- before the approvals.
pub serve_all-HasAdvanced :
    (p : Platform) (db : Database) (qs : List Request) (w i : Bytes) (d : Device)
    → find (is_device w i) db.devices ≡ some d
    → HasAdvanced w i d (serve_all p db qs).devices
unfolding serve_all
serve_all-HasAdvanced p db [] w i d stored = (d, stored, Advances-refl d)
serve_all-HasAdvanced p db (q ∷ qs) w i d stored =
    let (middle, found, advanced) = serve-HasAdvanced p db q w i d stored in
    let (later, there, further) = serve_all-HasAdvanced p (serve p db q) qs w i middle found in
    (later, there, Advances-trans d middle later advanced further)

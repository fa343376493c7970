-- ===== src/Admission/Membership.antt =====
-- ApprovePendingMembership, RenameDevice and RevokeDevice on the table of the devices. The authority's
-- key, the certificates and the rosters are kept in other tables and in columns that `Device` does
-- not have: `Signing` is what the tests and the signatures of that part come to.
use seven_mirror_server.Common.{
  ℕ, Bool, true, false, ◌||◌, ◌&&◌, not, none, some, ◌==◌, if◌then◌else◌,
}
use seven_mirror_server.Common.Result.{Result, ok, err, ◌>>=◌, ◌>>◌, refuse_if}
use seven_mirror_server.Common.Bytes.{Bytes, equal}
use seven_mirror_server.Common.Table.{find, count, update}
use seven_mirror_server.Admission.{
  Platform, MembershipState, pending_proof, pending_approval, approved, revoked, legacy_active,
  Device, Database, Error, device_not_found, is_null, is_approved, is_device, is_live,
  validate_device_name, unix_millis,
}
use seven_mirror_server.Admission.Rotation.{resolve_device_reference}

-- In the order of the code: the tests of the authority's key and of the roles, the test of the key
-- against the workspace, the next certificate and roster, and the INSERT of the roster.
pub record Signing : Type 0 where
  pub accepted : Result Error (Unit {0})
  pub authority : Result Error (Unit {0})
  pub certified : Result Error (Unit {0})
  pub recorded : Result Error (Unit {0})

abbrev pub is_pending_approval : MembershipState → Bool
is_pending_approval pending_approval = true
is_pending_approval pending_proof = false
is_pending_approval approved = false
is_pending_approval legacy_active = false
is_pending_approval revoked = false

-- `membership_state = 'pending_approval' AND revoked_at_ms IS NULL` of one device
abbrev pub is_approvable : Bytes → Bytes → Device → Bool
is_approvable workspace_id device_id d =
    is_device workspace_id device_id d
    && is_pending_approval d.membership_state
    && is_null d.revoked_at_ms

abbrev pub approve : Device → Device
approve d = record d {
  membership_state = approved;
  proof_challenge_digest = none;
  proof_expires_at_ms = none;
}

-- `membership_state = 'approved' AND revoked_at_ms IS NULL` of one device
abbrev pub is_member : Bytes → Bytes → Device → Bool
is_member workspace_id device_id d = is_device workspace_id device_id d && is_live d

-- `revoked_at_ms IS NULL AND membership_state != 'approved'` of one device
abbrev pub is_uncertified : Bytes → Bytes → Device → Bool
is_uncertified workspace_id device_id d =
    is_device workspace_id device_id d
    && is_null d.revoked_at_ms
    && not (is_approved d.membership_state)

abbrev pub revoke : ℕ → Device → Device
revoke now d = record d { revoked_at_ms = some now; membership_state = revoked }

abbrev pub set_name : Bytes → Device → Device
set_name name d = record d { device_name = name }

-- An UPDATE of devices that must affect one row.
unfoldable pub update_device :
    (Device → Bool) → (Device → Device) → Database → Result Error Database
update_device reach change db = do
  refuse_if (not (count reach db.devices == 1)) device_not_found
  ok (record db { devices = update reach change db.devices })

-- The SELECT of the device's row.
unfoldable pub read_device : Bytes → Bytes → Database → Result Error Device
read_device workspace_id device_id db = elim (find (is_device workspace_id device_id) db.devices) [
  | none ↦ err device_not_found
  | some d ↦ ok d
]

unfoldable pub approve_pending_membership :
    Platform → Database → Bytes → Bytes → Signing → Result Error Database
approve_pending_membership p db workspace_id reference signing = do
  signing.accepted
  device_id ← resolve_device_reference p db workspace_id reference
  signing.authority
  d ← read_device workspace_id device_id db
  refuse_if (not (is_null d.revoked_at_ms) || not (is_pending_approval d.membership_state))
      device_not_found
  signing.certified
  next ← update_device (is_approvable workspace_id device_id) approve db
  signing.recorded
  ok next

-- The UPDATE compares the certificate too, with the one of the row just read.
unfoldable pub rename_device :
    Platform → Database → Bytes → Bytes → Bytes → Signing → Result Error Database
rename_device p db workspace_id reference name signing = do
  validate_device_name p name
  device_id ← resolve_device_reference p db workspace_id reference
  d ← read_device workspace_id device_id db
  refuse_if (not (is_live d) || equal d.device_name name) device_not_found
  signing.authority
  signing.certified
  next ← update_device (is_member workspace_id device_id) (set_name name) db
  signing.recorded
  ok next

-- The part of a device with a certificate.
unfoldable pub revoke_member : Database → Bytes → Bytes → Signing → ℕ → Result Error Database
revoke_member db workspace_id device_id signing now = do
  signing.accepted
  signing.authority
  signing.certified
  next ← update_device (is_member workspace_id device_id) (revoke (unix_millis now)) db
  signing.recorded
  ok next

-- A device that is revoked already is left as it is.
unfoldable pub revoke_device :
    Platform → Database → Bytes → Bytes → Signing → ℕ → Result Error Database
revoke_device p db workspace_id reference signing now = do
  device_id ← resolve_device_reference p db workspace_id reference
  d ← read_device workspace_id device_id db
  let uncertified =
      update_device (is_uncertified workspace_id device_id) (revoke (unix_millis now)) db
  let certified = revoke_member db workspace_id device_id signing now
  if not (is_null d.revoked_at_ms)
      then ok db
      else if not (is_approved d.membership_state)
      then uncertified
      else certified

-- ===== src/Admission/Requests.antt =====
-- The transactions that write the rows of the devices and of their codes, one after the other.
-- RotateWorkspaceAuthority writes none of their columns that are modelled.
use seven_mirror_server.Common.{ℕ, List, [], ◌∷◌}
use seven_mirror_server.Common.Result.{Result, ok, err}
use seven_mirror_server.Common.Bytes.{Bytes}
use seven_mirror_server.Admission.{Platform, Database, Error}
use seven_mirror_server.Admission.Pairing.{
  Registration, PendingIdentityProof, PendingChallengeFactory, issue_pairing_code, register_pending,
  complete_pending_identity_proof,
}
use seven_mirror_server.Admission.Rotation.{
  CredentialRotation, issue_credential_rotation_code, rotate_credential,
}
use seven_mirror_server.Admission.Access.{authenticate, record_device_activity}
use seven_mirror_server.Admission.Membership.{
  Signing, approve_pending_membership, rename_device, revoke_device,
}

pub data Request : Type 0 where
  issue_pairing : Bytes → Bytes → Bytes → ℕ → ℕ → Bytes → Request
  register : Registration → PendingChallengeFactory → Bytes → Bytes → Request
  complete_proof : PendingIdentityProof → Request
  issue_rotation : Bytes → Bytes → ℕ → ℕ → Bytes → Request
  rotate_token : CredentialRotation → Request
  sign_on : Bytes → Bytes → Bytes → ℕ → Request
  activity : Bytes → Bytes → ℕ → Request
  approve_member : Bytes → Bytes → Signing → Request
  change_name : Bytes → Bytes → Bytes → Signing → Request
  revoke_access : Bytes → Bytes → Signing → ℕ → Request

-- The database after a transaction, which leaves it alone when it fails.
abbrev pub after_call {ℓ} : {A : Type ℓ} → Database → Result Error (A × Database) → Database
after_call db (ok (a, next)) = next
after_call db (err e) = db

abbrev pub after_update : Database → Result Error Database → Database
after_update db (ok next) = next
after_update db (err e) = db

unfoldable pub serve : Platform → Database → Request → Database
serve p db (issue_pairing workspace_id device_type bound_name now ttl secret) =
    after_call db (issue_pairing_code p db workspace_id device_type bound_name now ttl secret)
serve p db (register input create_challenge device_id auth_token) =
    after_call db (register_pending p db input create_challenge device_id auth_token)
serve p db (complete_proof input) = after_update db (complete_pending_identity_proof p db input)
serve p db (issue_rotation workspace_id reference now ttl secret) =
    after_call db (issue_credential_rotation_code p db workspace_id reference now ttl secret)
serve p db (rotate_token input) = after_call db (rotate_credential p db input)
serve p db (sign_on workspace_id device_id auth_token now) =
    after_call db (authenticate p db workspace_id device_id auth_token now)
serve p db (activity workspace_id device_id now) =
    record_device_activity db workspace_id device_id now
serve p db (approve_member workspace_id reference signing) =
    after_update db (approve_pending_membership p db workspace_id reference signing)
serve p db (change_name workspace_id reference name signing) =
    after_update db (rename_device p db workspace_id reference name signing)
serve p db (revoke_access workspace_id reference signing now) =
    after_update db (revoke_device p db workspace_id reference signing now)

unfoldable pub serve_all : Platform → Database → List Request → Database
serve_all p db [] = db
serve_all p db (q ∷ qs) = serve_all p (serve p db q) qs

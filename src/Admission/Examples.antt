-- ===== src/Admission/Examples.antt =====
-- A workspace with one pairing code, and one with an approved device and its rotation code. The
-- platform's functions are stood in for by simple ones.
use seven_mirror_server.Common.{
  ℕ, ◌≡◌, ◌↔◌, refl, true, false, none, some, List, [], ◌∷◌, arith, replicate,
}
use seven_mirror_server.Common.Result.{ok, err, ◌>>◌}
use seven_mirror_server.Common.Bytes.{Bytes, equal, all_zero}
use seven_mirror_server.Common.Table.{find, count, update, exists}
use seven_mirror_server.Admission.{
  Platform, PairingCode, RotationCode, Device, Database, invalid_pairing_code, approved, revoked,
  is_device, device_chrome, validate_device_type, validate_device_name,
}
use seven_mirror_server.Admission.Pairing.{
  Registration, PendingChallenge, PendingChallengeFactory, PendingIdentityProof, issued_code,
  consume_pairing, pending_device, register_pending, check_registration, read_pairing_code,
  consume_pairing_code, make_challenge, insert_device, complete_pending_identity_proof,
}
use seven_mirror_server.Admission.Rotation.{
  CredentialRotation, device_reference, resolve_device_reference, match_reference,
  rotate_credential, check_rotation, read_rotation, join_device, consume_rotation_code,
  replace_credential, consume_rotation, rotate,
}
use seven_mirror_server.Admission.Access.{
  authenticate, identity, is_session_authorized, record_device_activity,
}
use seven_mirror_server.Admission.Membership.{
  Signing, read_device, update_device, revoke_member, approve_pending_membership, rename_device,
  revoke_device,
}
use seven_mirror_server.Admission.Requests.{
  Request, complete_proof, sign_on, activity, approve_member, change_name, revoke_access, serve,
  serve_all,
}
use seven_mirror_server.Admission.Advances.{HasAdvanced}
use seven_mirror_server.Admission.Codes.{register_pending-once}
use seven_mirror_server.Admission.Devices.{serve_all-HasAdvanced}
use seven_mirror_server.Admission.Keys.{IsKeyed}
use seven_mirror_server.Admission.Sessions.{
  Holds, signed_in, authenticate_iff, rotate_credential-sessions,
}

abbrev platform : Platform
platform = record {
  sum256 = λ bs. bs;
  encode_base64 = λ bs. bs;
  decode_base64 = λ bs. some bs;
  unmarshals_p256 = λ bs. true;
  valid_utf8 = λ bs. true;
  trim_space = λ bs. bs;
}

abbrev workspace : Bytes
workspace = replicate 16 1

abbrev device_id : Bytes
device_id = replicate 16 2

abbrev token : Bytes
token = replicate 32 3

abbrev other_token : Bytes
other_token = replicate 32 4

abbrev secret : Bytes
secret = replicate 24 5

-- One minute after the start.
abbrev now : ℕ
now = 60000000000

abbrev challenge : PendingChallenge
challenge = record { digest = replicate 32 6; secret = replicate 32 7; expires_at = 120000000000 }

abbrev factory : PendingChallengeFactory
factory = some (λ w i. some challenge)

abbrev registration : Registration
registration = record {
  pairing_code = secret;
  device_type = device_chrome;
  device_name = 65 ∷ [];
  e2ee_public_key = 4 ∷ replicate 64 8;
  now = now;
}

abbrev code : PairingCode
code = issued_code secret workspace device_chrome [] 0 600000000000

abbrev paired : Database
paired = record {
  workspaces = workspace ∷ [];
  pairing_codes = code ∷ [];
  rotation_codes = [];
  devices = [];
}

abbrev pending : Device
pending = pending_device platform registration workspace device_id token challenge

abbrev registered : Database
registered = record paired {
  pairing_codes = consume_pairing 60000 code ∷ [];
  devices = pending ∷ [];
}

registers :
    register_pending platform paired registration factory device_id token
    ≡ ok
        (record { workspace_id = workspace; device_id = device_id; auth_token = token }, registered)
unfolding register_pending check_registration validate_device_type validate_device_name
    read_pairing_code consume_pairing_code make_challenge insert_device find count update exists
    equal all_zero
registers = refl

abbrev proof : PendingIdentityProof
proof = record {
  workspace_id = workspace;
  device_id = device_id;
  auth_token = token;
  challenge_digest = challenge.digest;
  challenge_secret = challenge.secret;
  now = now;
}

abbrev signing : Signing
signing = record { accepted = ok tt; authority = ok tt; certified = ok tt; recorded = ok tt }

abbrev requests : List Request
requests =
    complete_proof proof
    ∷ approve_member workspace (device_reference platform workspace device_id) signing
    ∷ change_name workspace (device_reference platform workspace device_id) (66 ∷ []) signing
    ∷ activity workspace device_id now
    ∷ revoke_access workspace (device_reference platform workspace device_id) signing now
    ∷ []

register_pending-once_example :
    register_pending platform
      (serve_all platform registered requests)
      registration
      factory
      other_token
      other_token
    ≡ (check_registration platform factory registration >> err invalid_pairing_code)
register_pending-once_example =
    register_pending-once platform paired registration factory device_id token
      (record { workspace_id = workspace; device_id = device_id; auth_token = token }) registered
      requests registration factory other_token other_token registers refl

-- At the end of the requests the device is approved, renamed and revoked.
requests_reach_the_device :
    find (is_device workspace device_id) (serve_all platform registered requests).devices
    ≡ some (record pending {
      membership_state = revoked;
      revoked_at_ms = some 60000;
      device_name = 66 ∷ [];
      proof_challenge_digest = none;
      proof_secret_hash = none;
      proof_expires_at_ms = none;
      proof_completed_at_ms = some 60000;
      last_activity_at_ms = some 60000;
    })
unfolding serve_all serve complete_pending_identity_proof record_device_activity update count find
    equal exists approve_pending_membership rename_device revoke_device revoke_member read_device
    update_device resolve_device_reference match_reference validate_device_name
requests_reach_the_device = refl

pending_stored : find (is_device workspace device_id) registered.devices ≡ some pending
unfolding find equal
pending_stored = refl

serve_all-HasAdvanced_example :
    HasAdvanced workspace device_id pending (serve_all platform registered requests).devices
serve_all-HasAdvanced_example =
    serve_all-HasAdvanced platform registered requests workspace device_id pending pending_stored

abbrev member : Device
member = record pending { membership_state = approved }

abbrev rotation_code : RotationCode
rotation_code = record {
  code_hash = secret;
  workspace_id = workspace;
  device_id = device_id;
  created_at_ms = 0;
  expires_at_ms = 600000;
  consumed_at_ms = none;
}

abbrev joined : Database
joined = record registered { rotation_codes = rotation_code ∷ []; devices = member ∷ [] }

joined-IsKeyed : IsKeyed joined.devices
unfolding IsKeyed exists
joined-IsKeyed = (refl, tt)

authenticate_iff_example :
    (authenticate platform joined workspace device_id token now
      ≡ ok (
        identity workspace device_id member,
        signed_in platform joined workspace device_id token now,
      ))
    ↔ ((d : Device) × Holds platform joined workspace device_id token d
        × (identity workspace device_id member ≡ identity workspace device_id d)
        × (signed_in platform joined workspace device_id token now
            ≡ signed_in platform joined workspace device_id token now))
authenticate_iff_example =
    authenticate_iff platform joined workspace device_id token now
      (identity workspace device_id member)
      (signed_in platform joined workspace device_id token now) joined-IsKeyed

abbrev rotation : CredentialRotation
rotation = record {
  workspace_id = workspace;
  device_id = device_id;
  current_auth_token = token;
  rotation_code = secret;
  pending_auth_token = other_token;
  now = now;
}

abbrev rotated : Database
rotated = record joined {
  rotation_codes = consume_rotation 60000 rotation_code ∷ [];
  devices = rotate other_token member ∷ [];
}

rotates : rotate_credential platform joined rotation ≡ ok (2, rotated)
unfolding rotate_credential check_rotation read_rotation join_device consume_rotation_code
    replace_credential find count update exists equal
rotates = refl

rotate_credential-sessions_example :
    (is_session_authorized rotated workspace device_id 2 ≡ true)
    × (is_session_authorized
          (serve_all platform rotated (sign_on workspace device_id token now ∷ []))
          workspace
          device_id
          1
        ≡ false)
rotate_credential-sessions_example =
    rotate_credential-sessions platform joined rotation 2 rotated
      (sign_on workspace device_id token now ∷ []) 1 joined-IsKeyed rotates (omega arith)

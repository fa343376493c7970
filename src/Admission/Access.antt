-- ===== src/Admission/Access.antt =====
-- IsDeviceAuthorized, IsSessionAuthorized, Authenticate and RecordDeviceActivity.
use seven_mirror_server.Common.{
  ℕ, ◌+◌, Bool, true, false, ◌&&◌, not, Option, none, some, ltb, leb, ◌==◌, length, if◌then◌else◌,
}
use seven_mirror_server.Common.Result.{Result, ok, err, ◌>>◌, refuse_if}
use seven_mirror_server.Common.Bytes.{Bytes, equal}
use seven_mirror_server.Common.Table.{find, count, update}
use seven_mirror_server.Admission.{
  Platform, Device, Database, Error, unauthorized, is_device, is_live, unix_millis,
  auth_token_bytes,
}

pub record DeviceIdentity : Type 0 where
  pub workspace_id : Bytes
  pub device_id : Bytes
  pub device_type : Bytes
  pub device_name : Bytes
  pub credential_version : ℕ

unfoldable pub is_device_authorized : Database → Bytes → Bytes → Bool
is_device_authorized db workspace_id device_id =
    elim (find (is_device workspace_id device_id) db.devices) [ none ↦ false | some d ↦ is_live d ]

unfoldable pub is_session_authorized : Database → Bytes → Bytes → ℕ → Bool
is_session_authorized db workspace_id device_id credential_version =
    if ltb credential_version 1
    then false
    else elim (find (is_device workspace_id device_id) db.devices) [
      | none ↦ false
      | some d ↦ d.credential_version == credential_version && is_live d
    ]

-- The WHERE clause of both statements of Authenticate.
abbrev pub has_credential : Bytes → Bytes → Bytes → Device → Bool
has_credential workspace_id device_id hash d =
    is_device workspace_id device_id d && equal d.auth_token_hash hash && is_live d

abbrev pub sign_in : ℕ → Device → Device
sign_in now d = record d {
  last_online_at_ms = now;
  last_authenticated_at_ms = some now;
  last_activity_at_ms = some now;
}

abbrev pub identity : Bytes → Bytes → Device → DeviceIdentity
identity workspace_id device_id d = record {
  workspace_id = workspace_id;
  device_id = device_id;
  device_type = d.device_type;
  device_name = d.device_name;
  credential_version = d.credential_version;
}

unfoldable pub authenticate :
    Platform → Database → Bytes → Bytes → Bytes → ℕ → Result Error (DeviceIdentity × Database)
authenticate p db workspace_id device_id auth_token now = do
  refuse_if (not (length auth_token == auth_token_bytes)) unauthorized
  let matching : Device → Bool = has_credential workspace_id device_id (p.sum256 auth_token)
  refuse_if (not (count matching db.devices == 1)) unauthorized
  let devices = update matching (sign_in (unix_millis now)) db.devices
  elim (find matching devices) [
    | none ↦ err unauthorized
    | some d ↦ ok (identity workspace_id device_id d, record db { devices = devices })
  ]

abbrev pub is_quiet : Option ℕ → ℕ → Bool
is_quiet none now = true
is_quiet (some last) now = leb (last + 60000) now

abbrev pub touch : ℕ → Device → Device
touch now d = record d { last_activity_at_ms = some now }

unfoldable pub record_device_activity : Database → Bytes → Bytes → ℕ → Database
record_device_activity db workspace_id device_id now = record db {
  devices =
      update
        (λ d.
          is_device workspace_id device_id d
          && is_live d
          && is_quiet d.last_activity_at_ms (unix_millis now))
        (touch (unix_millis now)) db.devices;
}

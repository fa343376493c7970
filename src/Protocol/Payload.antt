-- ===== src/Protocol/Payload.antt =====
-- protocol/payloadcodec/payload.go: the plaintext payloads that devices exchange, which the relay
-- never sees. The messages are those of protocol/proto/notification/v1/payload.proto, with `unknown`
-- for what a decoder found beyond the schema, and a string as its bytes; protobuf's codec, SHA-256,
-- the curve and UTF-8 validation are parameters. A body of the `oneof` is never nil, nor are
-- elements of lists. A negative number of an enum, which every check refuses, is left out.
pub mod Notifications
pub mod Actions
pub mod Lifecycle
pub mod Encoding
pub mod Schemas
pub mod Uniqueness
pub mod Examples
use seven_mirror_server.Common.{
  ℕ, ◌*◌, ◌-◌, ◌^◌, Bool, true, false, ◌||◌, ◌&&◌, not, Option, none, some, List, [], ◌∷◌, ltb,
  ◌==◌, length, if◌then◌else◌,
}
use seven_mirror_server.Common.Bytes.{Bytes, all_zero}
use seven_mirror_server.Common.Result.{Result, ok, err, ◌>>=◌, ◌>>◌, refuse_if}
use seven_mirror_server.Protocol.Membership.{Codec}

abbrev pub schema_version : ℕ
schema_version = 2

abbrev pub identity_lifecycle_schema_version : ℕ
identity_lifecycle_schema_version = 2

abbrev pub notification_schema_version : ℕ
notification_schema_version = 7

abbrev pub max_plaintext_size : ℕ
max_plaintext_size = 524272

abbrev pub max_notification_id_bytes : ℕ
max_notification_id_bytes = 512

abbrev pub max_notification_app_id_bytes : ℕ
max_notification_app_id_bytes = 255

abbrev pub max_notification_app_name_bytes : ℕ
max_notification_app_name_bytes = 512

abbrev pub max_notification_title_bytes : ℕ
max_notification_title_bytes = 512

abbrev pub max_notification_body_bytes : ℕ
max_notification_body_bytes = 4000

abbrev pub max_notification_actions : ℕ
max_notification_actions = 16

abbrev pub max_notification_action_title_bytes : ℕ
max_notification_action_title_bytes = 256

abbrev pub max_notification_media_bytes : ℕ
max_notification_media_bytes = 128 * 1024

abbrev pub max_notification_media_dimension : ℕ
max_notification_media_dimension = 256

abbrev pub max_snapshot_entries : ℕ
max_snapshot_entries = 200

abbrev pub max_reply_text_bytes : ℕ
max_reply_text_bytes = 4000

abbrev pub max_result_detail_bytes : ℕ
max_result_detail_bytes = 256

abbrev pub payload_identifier_size : ℕ
payload_identifier_size = 16

abbrev pub sha256_size : ℕ
sha256_size = 32

abbrev pub payload_public_key_size : ℕ
payload_public_key_size = 65

abbrev pub max_notification_revision : ℕ
max_notification_revision = 2 ^ 63 - 1

pub record ActionInvoke : Type 0 where
  pub unknown : Bytes
  pub notification_id : Bytes
  pub notification_revision : ℕ
  pub action_id : Bytes
  pub idempotency_key : Bytes
  pub reply_text : Option Bytes
  pub dismiss_notification : Bool

pub record ActionResult : Type 0 where
  pub unknown : Bytes
  pub idempotency_key : Bytes
  pub status : ℕ
  pub detail : Option Bytes

pub record ActionResultAck : Type 0 where
  pub unknown : Bytes
  pub idempotency_key : Bytes
  pub result_sha256 : Bytes

pub record KeyTransition : Type 0 where
  pub unknown : Bytes
  pub transition_id : Bytes
  pub previous_key_id : Bytes
  pub new_public_key : Bytes
  pub new_key_id : Bytes

pub record KeyTransitionAck : Type 0 where
  pub unknown : Bytes
  pub transition_id : Bytes
  pub previous_key_id : Bytes
  pub new_key_id : Bytes
  pub transition_sha256 : Bytes

pub record KeyTransitionCommit : Type 0 where
  pub unknown : Bytes
  pub transition_id : Bytes
  pub previous_key_id : Bytes
  pub new_key_id : Bytes
  pub transition_sha256 : Bytes
  pub ack_sha256 : Bytes

pub record Media : Type 0 where
  pub unknown : Bytes
  pub content_sha256 : Bytes
  pub mime_type : ℕ
  pub width : ℕ
  pub height : ℕ
  pub encoded_bytes : Bytes

pub record ActionDescriptor : Type 0 where
  pub unknown : Bytes
  pub action_id : Bytes
  pub title : Bytes
  pub requires_text_input : Bool
  pub allows_free_form_input : Bool

pub record Upsert : Type 0 where
  pub unknown : Bytes
  pub notification_id : Bytes
  pub notification_revision : ℕ
  pub title : Option Bytes
  pub body : Option Bytes
  pub app_icon : Option Media
  pub avatar : Option Media
  pub contains_content_image : Bool
  pub actions : List ActionDescriptor
  pub source_application_id : Bytes
  pub source_application_name : Bytes

-- NotificationRemoved and NotificationSnapshotEntry have the same fields.
pub record Revision : Type 0 where
  pub unknown : Bytes
  pub notification_id : Bytes
  pub notification_revision : ℕ

pub record Manifest : Type 0 where
  pub unknown : Bytes
  pub high_water_revision : ℕ
  pub active_notifications : List Revision
  pub recovery_request_id : Option Bytes

pub record SnapshotRequest : Type 0 where
  pub unknown : Bytes
  pub recovery_request_id : Bytes
  pub reset_high_water_delivery_id : ℕ

pub data Body : Type 0 where
  action_invoke : ActionInvoke → Body
  action_result : ActionResult → Body
  action_result_ack : ActionResultAck → Body
  key_transition : KeyTransition → Body
  key_transition_ack : KeyTransitionAck → Body
  key_transition_commit : KeyTransitionCommit → Body
  upsert : Upsert → Body
  removed : Revision → Body
  manifest : Manifest → Body
  snapshot_request : SnapshotRequest → Body

pub record Payload : Type 0 where
  pub unknown : Bytes
  pub version : ℕ
  pub body : Option Body

-- The payload's codec, crypto/sha256, `elliptic.Unmarshal` and unicode/utf8.
pub record Library : Type 0 where
  pub payload : Codec Payload
  pub sum256 : Bytes → Bytes
  pub is_point : Bytes → Bool
  pub is_valid_utf8 : Bytes → Bool

pub data Error : Type 0 where
  unencodable undecodable bad_size not_canonical bad_schema no_body unknown_fields : Error
  bad_notification_id bad_revision bad_text no_text bad_image bad_media too_many : Error
  bad_action_id duplicate_action bad_input bad_key bad_digest bad_status : Error
  bad_dismissal bad_recovery_id above_high_water unsorted same_key : Error

abbrev pub is_bad_text : Library → ℕ → Bytes → Bool
is_bad_text l max text = not (l.is_valid_utf8 text) || ltb (length text) 1 || ltb max (length text)

-- A text that may be absent.
abbrev pub is_bad_optional : Library → ℕ → Option Bytes → Bool
is_bad_optional l max none = false
is_bad_optional l max (some text) = is_bad_text l max text

-- A non-zero value of a fixed size.
abbrev pub is_bad_value : ℕ → Bytes → Bool
is_bad_value size value = not (length value == size) || all_zero value

abbrev pub is_unknown : Bytes → Bool
is_unknown unknown = not (length unknown == 0)

unfoldable pub validate_notification_binding : Library → Bytes → ℕ → Result Error (Unit {0})
validate_notification_binding l id revision = do
  refuse_if (is_bad_text l max_notification_id_bytes id) bad_notification_id
  refuse_if (ltb revision 1 || ltb max_notification_revision revision) bad_revision

-- ===== src/Protocol/Payload/Notifications.antt =====
-- protocol/payloadcodec/payload.go: notifications, their media and their snapshots.
use seven_mirror_server.Common.{
  ℕ, Bool, true, false, ◌||◌, ◌&&◌, not, Option, none, some, List, [], ◌∷◌, ltb, ◌==◌, length,
  if◌then◌else◌,
}
use seven_mirror_server.Common.Bytes.{Bytes, equal, slice}
use seven_mirror_server.Common.Bytes.Order.{follows}
use seven_mirror_server.Common.Result.{Result, ok, ◌>>◌, refuse_if}
use seven_mirror_server.Protocol.Payload.{
  Media, ActionDescriptor, Upsert, Revision, Manifest, SnapshotRequest, Library, Error,
  unknown_fields, bad_revision, bad_text, no_text, bad_image, bad_media, too_many, bad_action_id,
  duplicate_action, bad_input, bad_digest, bad_recovery_id, above_high_water, unsorted, is_bad_text,
  is_bad_optional, is_bad_value, is_unknown, validate_notification_binding,
  max_notification_app_id_bytes, max_notification_app_name_bytes, max_notification_title_bytes,
  max_notification_body_bytes, max_notification_actions, max_notification_action_title_bytes,
  max_notification_media_bytes, max_notification_media_dimension, max_snapshot_entries,
  payload_identifier_size, max_notification_revision,
}

-- The Chinese placeholder for an image in a body, in UTF-8.
abbrev image_placeholder : Bytes
image_placeholder = 91 ∷ 229 ∷ 155 ∷ 190 ∷ 231 ∷ 137 ∷ 135 ∷ 93 ∷ []

abbrev png_signature : Bytes
png_signature = 137 ∷ 80 ∷ 78 ∷ 71 ∷ 13 ∷ 10 ∷ 26 ∷ 10 ∷ []

abbrev riff : Bytes
riff = 82 ∷ 73 ∷ 70 ∷ 70 ∷ []

abbrev webp : Bytes
webp = 87 ∷ 69 ∷ 66 ∷ 80 ∷ []

-- `strings.Contains`
unfoldable pub is_prefix : Bytes → Bytes → Bool
is_prefix [] bs = true
is_prefix (x ∷ xs) [] = false
is_prefix (x ∷ xs) (y ∷ ys) = x == y && is_prefix xs ys

unfoldable pub contains : Bytes → Bytes → Bool
contains [] part = is_prefix part []
contains (x ∷ xs) part = is_prefix part (x ∷ xs) || contains xs part

-- Whether the body has the placeholder.
abbrev has_placeholder : Option Bytes → Bool
has_placeholder none = false
has_placeholder (some body) = contains body image_placeholder

-- The signature that belongs to a MIME type: 1 is PNG, 2 is WebP.
abbrev has_signature : ℕ → Bytes → Bool
has_signature mime_type encoded =
    if mime_type == 1
    then not (ltb (length encoded) 8) && equal (slice 0 8 encoded) png_signature
    else if mime_type == 2
    then not (ltb (length encoded) 12)
      && equal (slice 0 4 encoded) riff
      && equal (slice 8 12 encoded) webp
    else false

unfoldable pub validate_notification_media : Library → Media → Result Error (Unit {0})
validate_notification_media l m = do
  refuse_if (is_unknown m.unknown) unknown_fields
  refuse_if
      (ltb (length m.encoded_bytes) 1 || ltb max_notification_media_bytes (length m.encoded_bytes))
      bad_media
  refuse_if
      (ltb m.width 1
        || ltb max_notification_media_dimension m.width
        || ltb m.height 1
        || ltb max_notification_media_dimension m.height)
      bad_media
  refuse_if (not (equal m.content_sha256 (l.sum256 m.encoded_bytes))) bad_digest
  refuse_if (not (has_signature m.mime_type m.encoded_bytes)) bad_media

unfoldable pub validate_optional_media : Library → Option Media → Result Error (Unit {0})
validate_optional_media l none = ok tt
validate_optional_media l (some m) = validate_notification_media l m

unfoldable pub validate_notification_action_descriptor :
    Library → ActionDescriptor → Result Error (Unit {0})
validate_notification_action_descriptor l a = do
  refuse_if (is_unknown a.unknown) unknown_fields
  refuse_if (not (length a.action_id == payload_identifier_size)) bad_action_id
  refuse_if (is_bad_text l max_notification_action_title_bytes a.title) bad_text
  refuse_if (a.allows_free_form_input && not a.requires_text_input) bad_input

unfoldable pub has_id_among : List Bytes → Bytes → Bool
has_id_among [] id = false
has_id_among (x ∷ xs) id = equal x id || has_id_among xs id

-- The loop over the actions, with the ids that it has seen.
unfoldable pub check_actions :
    Library → List Bytes → List ActionDescriptor → Result Error (Unit {0})
check_actions l seen [] = ok tt
check_actions l seen (a ∷ as') = do
  validate_notification_action_descriptor l a
  refuse_if (has_id_among seen a.action_id) duplicate_action
  check_actions l (a.action_id ∷ seen) as'

abbrev is_absent : Option Bytes → Bool
is_absent none = true
is_absent (some text) = false

unfoldable pub validate_notification_upsert : Library → Upsert → Result Error (Unit {0})
validate_notification_upsert l n = do
  refuse_if (is_unknown n.unknown) unknown_fields
  validate_notification_binding l n.notification_id n.notification_revision
  refuse_if (is_bad_text l max_notification_app_id_bytes n.source_application_id) bad_text
  refuse_if (is_bad_text l max_notification_app_name_bytes n.source_application_name) bad_text
  refuse_if (is_absent n.title && is_absent n.body) no_text
  refuse_if (is_bad_optional l max_notification_title_bytes n.title) bad_text
  refuse_if (is_bad_optional l max_notification_body_bytes n.body) bad_text
  refuse_if (n.contains_content_image && not (has_placeholder n.body)) bad_image
  validate_optional_media l n.app_icon
  validate_optional_media l n.avatar
  refuse_if (ltb max_notification_actions (length n.actions)) too_many
  check_actions l [] n.actions

unfoldable pub validate_notification_removed : Library → Revision → Result Error (Unit {0})
validate_notification_removed l n = do
  refuse_if (is_unknown n.unknown) unknown_fields
  validate_notification_binding l n.notification_id n.notification_revision

-- The loop over the entries, from the id before. Ids are not empty, so `previousID != ""` says
-- that there is one.
unfoldable pub check_entries : Library → ℕ → Option Bytes → List Revision → Result Error (Unit {0})
check_entries l high previous [] = ok tt
check_entries l high previous (e ∷ es) = do
  refuse_if (is_unknown e.unknown) unknown_fields
  validate_notification_binding l e.notification_id e.notification_revision
  refuse_if (ltb high e.notification_revision) above_high_water
  refuse_if (not (follows previous e.notification_id)) unsorted
  check_entries l high (some e.notification_id) es

abbrev is_bad_recovery_id : Option Bytes → Bool
is_bad_recovery_id none = false
is_bad_recovery_id (some id) = is_bad_value payload_identifier_size id

unfoldable pub validate_notification_snapshot_manifest :
    Library → Manifest → Result Error (Unit {0})
validate_notification_snapshot_manifest l m = do
  refuse_if (is_unknown m.unknown) unknown_fields
  refuse_if (is_bad_recovery_id m.recovery_request_id) bad_recovery_id
  refuse_if (ltb max_notification_revision m.high_water_revision) bad_revision
  refuse_if (ltb max_snapshot_entries (length m.active_notifications)) too_many
  check_entries l m.high_water_revision none m.active_notifications

unfoldable pub validate_notification_snapshot_request : SnapshotRequest → Result Error (Unit {0})
validate_notification_snapshot_request r = do
  refuse_if (is_unknown r.unknown) unknown_fields
  refuse_if (is_bad_value payload_identifier_size r.recovery_request_id) bad_recovery_id
  refuse_if (ltb max_notification_revision r.reset_high_water_delivery_id) bad_revision

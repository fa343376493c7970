-- ===== src/Protocol/Payload/Encoding.antt =====
-- protocol/payloadcodec/payload.go: a payload's schema, and its encoding.
use seven_mirror_server.Common.{
  ℕ, Bool, true, false, ◌||◌, ◌&&◌, not, Option, none, some, ltb, ◌==◌, length, if◌then◌else◌,
}
use seven_mirror_server.Common.Bytes.{Bytes, equal}
use seven_mirror_server.Common.Result.{Result, ok, err, ◌>>=◌, ◌>>◌, refuse_if}
use seven_mirror_server.Protocol.Payload.{
  Body, Payload, Library, Error, action_invoke, action_result, action_result_ack, key_transition,
  key_transition_ack, key_transition_commit, upsert, removed, manifest, snapshot_request,
  unencodable, undecodable, bad_size, not_canonical, bad_schema, no_body, unknown_fields,
  is_unknown, schema_version, identity_lifecycle_schema_version, notification_schema_version,
  max_plaintext_size,
}
use seven_mirror_server.Protocol.Payload.Notifications.{
  validate_notification_upsert, validate_notification_removed,
  validate_notification_snapshot_manifest, validate_notification_snapshot_request,
}
use seven_mirror_server.Protocol.Payload.Actions.{
  validate_action_invoke, validate_action_result, validate_action_result_ack,
}
use seven_mirror_server.Protocol.Payload.Lifecycle.{
  validate_identity_key_transition, validate_identity_key_transition_ack,
  validate_identity_key_transition_commit,
}

-- The body's error counts once the schema is right. The arguments are the schema's version, whether
-- legacy is allowed, and whether the body dismisses a notification.
abbrev pub validate_action_schema :
    ℕ → Bool → Bool → Result Error (Unit {0}) → Result Error (Unit {0})
validate_action_schema version allow_legacy dismiss body_error =
    if version == schema_version
    then body_error
    else if allow_legacy && version == 1 && not dismiss
    then body_error
    else err bad_schema

abbrev pub validate_schema : ℕ → ℕ → Result Error (Unit {0}) → Result Error (Unit {0})
validate_schema version expected body_error =
    if not (version == expected) then err bad_schema else body_error

-- `switch body := payload.GetBody().(type)`
unfoldable pub validate_body : Library → ℕ → Bool → Option Body → Result Error (Unit {0})
validate_body l version allow none = err no_body
validate_body l version allow (some (action_invoke a)) =
    validate_action_schema version allow a.dismiss_notification (validate_action_invoke l a)
validate_body l version allow (some (action_result r)) =
    validate_action_schema version allow false (validate_action_result l r)
validate_body l version allow (some (action_result_ack r)) =
    validate_action_schema version allow false (validate_action_result_ack r)
validate_body l version allow (some (key_transition t)) =
    validate_schema version identity_lifecycle_schema_version (validate_identity_key_transition l t)
validate_body l version allow (some (key_transition_ack t)) =
    validate_schema version identity_lifecycle_schema_version
      (validate_identity_key_transition_ack t)
validate_body l version allow (some (key_transition_commit t)) =
    validate_schema version identity_lifecycle_schema_version
      (validate_identity_key_transition_commit t)
validate_body l version allow (some (upsert n)) =
    validate_schema version notification_schema_version (validate_notification_upsert l n)
validate_body l version allow (some (removed n)) =
    validate_schema version notification_schema_version (validate_notification_removed l n)
validate_body l version allow (some (manifest m)) =
    validate_schema version notification_schema_version
      (validate_notification_snapshot_manifest l m)
validate_body l version allow (some (snapshot_request r)) =
    validate_schema version notification_schema_version (validate_notification_snapshot_request r)

unfoldable pub validate_payload : Library → Payload → Bool → Result Error (Unit {0})
validate_payload l p allow = do
  refuse_if (is_unknown p.unknown) unknown_fields
  validate_body l p.version allow p.body

abbrev pub is_bad_size : Bytes → Bool
is_bad_size encoded = length encoded == 0 || ltb max_plaintext_size (length encoded)

abbrev pub check_size : Option Bytes → Result Error Bytes
check_size none = err unencodable
check_size (some encoded) = if is_bad_size encoded then err bad_size else ok encoded

unfoldable pub encode_payload : Library → Payload → Result Error Bytes
encode_payload l p = do validate_payload l p false; check_size (l.payload.marshal p)

abbrev pub check_canonical : Bytes → Payload → Option Bytes → Result Error Payload
check_canonical encoded p none = err unencodable
check_canonical encoded p (some canonical) =
    if equal canonical encoded then ok p else err not_canonical

abbrev pub read_payload : Option Payload → Result Error Payload
read_payload none = err undecodable
read_payload (some p) = ok p

unfoldable pub decode_payload : Library → Bytes → Result Error Payload
decode_payload l encoded = do
  refuse_if (is_bad_size encoded) bad_size
  p ← read_payload (l.payload.unmarshal encoded)
  validate_payload l p true
  check_canonical encoded p (l.payload.marshal p)

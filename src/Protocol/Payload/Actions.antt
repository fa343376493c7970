-- ===== src/Protocol/Payload/Actions.antt =====
-- protocol/payloadcodec/payload.go: invocations of actions, and their results.
use seven_mirror_server.Common.{
  Bool, true, false, ◌||◌, not, Option, none, some, ltb, ◌==◌, length, if◌then◌else◌,
}
use seven_mirror_server.Common.Bytes.{Bytes}
use seven_mirror_server.Common.Result.{Result, ◌>>◌, refuse_if}
use seven_mirror_server.Protocol.Payload.{
  ActionInvoke, ActionResult, ActionResultAck, Library, Error, unknown_fields, bad_text,
  bad_action_id, bad_key, bad_digest, bad_status, bad_dismissal, is_bad_optional, is_bad_value,
  is_unknown, validate_notification_binding, max_reply_text_bytes, max_result_detail_bytes,
  payload_identifier_size, sha256_size,
}

abbrev is_absent_reply : Option Bytes → Bool
is_absent_reply none = true
is_absent_reply (some text) = false

unfoldable pub validate_action_invoke : Library → ActionInvoke → Result Error (Unit {0})
validate_action_invoke l a = do
  refuse_if (is_unknown a.unknown) unknown_fields
  validate_notification_binding l a.notification_id a.notification_revision
  refuse_if (is_bad_value payload_identifier_size a.idempotency_key) bad_key
  if a.dismiss_notification
      then refuse_if (not (length a.action_id == 0) || not (is_absent_reply a.reply_text))
          bad_dismissal
      else (do
        refuse_if (not (length a.action_id == payload_identifier_size)) bad_action_id
        refuse_if (is_bad_optional l max_reply_text_bytes a.reply_text) bad_text)

-- ACTION_RESULT_STATUS_SUCCEEDED and ACTION_RESULT_STATUS_OUTCOME_UNKNOWN bound the states.
unfoldable pub validate_action_result : Library → ActionResult → Result Error (Unit {0})
validate_action_result l r = do
  refuse_if (is_unknown r.unknown) unknown_fields
  refuse_if (is_bad_value payload_identifier_size r.idempotency_key) bad_key
  refuse_if (ltb r.status 1 || ltb 9 r.status) bad_status
  refuse_if (is_bad_optional l max_result_detail_bytes r.detail) bad_text

unfoldable pub validate_action_result_ack : ActionResultAck → Result Error (Unit {0})
validate_action_result_ack r = do
  refuse_if (is_unknown r.unknown) unknown_fields
  refuse_if (is_bad_value payload_identifier_size r.idempotency_key) bad_key
  refuse_if (is_bad_value sha256_size r.result_sha256) bad_digest

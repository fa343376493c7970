-- ===== src/Protocol/Payload/Lifecycle.antt =====
-- protocol/payloadcodec/payload.go: the succession of a device's identity key.
use seven_mirror_server.Common.{not, ◌==◌, length}
use seven_mirror_server.Common.Bytes.{Bytes, equal}
use seven_mirror_server.Common.Result.{Result, ◌>>◌, refuse_if}
use seven_mirror_server.Protocol.Payload.{
  KeyTransition, KeyTransitionAck, KeyTransitionCommit, Library, Error, unknown_fields, bad_key,
  bad_digest, same_key, is_bad_value, is_unknown, payload_identifier_size, sha256_size,
  payload_public_key_size,
}

unfoldable pub validate_transition_binding : Bytes → Bytes → Bytes → Result Error (Unit {0})
validate_transition_binding transition_id previous_key_id new_key_id = do
  refuse_if (is_bad_value payload_identifier_size transition_id) bad_key
  refuse_if (is_bad_value sha256_size previous_key_id) bad_key
  refuse_if (is_bad_value sha256_size new_key_id) bad_key
  refuse_if (equal previous_key_id new_key_id) same_key

unfoldable pub validate_identity_key_transition : Library → KeyTransition → Result Error (Unit {0})
validate_identity_key_transition l t = do
  refuse_if (is_unknown t.unknown) unknown_fields
  validate_transition_binding t.transition_id t.previous_key_id t.new_key_id
  refuse_if (not (length t.new_public_key == payload_public_key_size)) bad_key
  refuse_if (not (l.is_point t.new_public_key)) bad_key
  refuse_if (not (equal (l.sum256 t.new_public_key) t.new_key_id)) bad_digest

unfoldable pub validate_identity_key_transition_ack : KeyTransitionAck → Result Error (Unit {0})
validate_identity_key_transition_ack t = do
  refuse_if (is_unknown t.unknown) unknown_fields
  validate_transition_binding t.transition_id t.previous_key_id t.new_key_id
  refuse_if (is_bad_value sha256_size t.transition_sha256) bad_digest

unfoldable pub validate_identity_key_transition_commit :
    KeyTransitionCommit → Result Error (Unit {0})
validate_identity_key_transition_commit t = do
  refuse_if (is_unknown t.unknown) unknown_fields
  validate_transition_binding t.transition_id t.previous_key_id t.new_key_id
  refuse_if (is_bad_value sha256_size t.transition_sha256) bad_digest
  refuse_if (is_bad_value sha256_size t.ack_sha256) bad_digest

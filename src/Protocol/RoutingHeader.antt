-- ===== src/Protocol/RoutingHeader.antt =====
-- protocol/routingheader/header.go: the fixed-width Routing Header v1 codec. Arrays are byte lists
-- of their length (`IsArray`), `uint64` fields are numbers below 2^64.
pub mod Validity
pub mod RoundTrip
use seven_mirror_server.Common.{
  ℕ, ◌-◌, ◌*◌, ◌^◌, ◌<◌, ◌≡◌, Bool, ◌||◌, not, List, [], ◌∷◌, ltb, leb, ◌==◌, length,
}
use seven_mirror_server.Common.Result.{Result, ok, err, ◌>>=◌, ◌>>◌, refuse_if}
use seven_mirror_server.Common.Bytes.{Bytes, IsArray, slice, make, equal, all_zero}
use seven_mirror_server.Common.Bytes.Layout.{Field, field, write_all}
use seven_mirror_server.Common.Bytes.BigEndian.{put, get}

abbrev pub encoded_size : ℕ
encoded_size = 160

abbrev pub suite_id : ℕ
suite_id = 1

abbrev pub max_ttl_millis : ℕ
max_ttl_millis = 24 * 60 * 60 * 1000

abbrev pub max_safe_millis : ℕ
max_safe_millis = 2 ^ 53 - 1

abbrev pub max_int64 : ℕ
max_int64 = 2 ^ 63 - 1

-- "SNH1"
abbrev pub magic : Bytes
magic = 83 ∷ 78 ∷ 72 ∷ 49 ∷ []

pub record Header : Type 0 where
  pub workspace_id : Bytes
  pub sender_device_id : Bytes
  pub recipient_device_id : Bytes
  pub sender_key_id : Bytes
  pub recipient_key_id : Bytes
  pub message_id : Bytes
  pub sequence : ℕ
  pub created_at_unix_ms : ℕ
  pub expires_at_unix_ms : ℕ

-- What the Go type guarantees of a value: the array sizes and the integer width.
pub record IsTyped (h : Header) : Type 0 where
  pub workspace_id : IsArray 16 h.workspace_id
  pub sender_device_id : IsArray 16 h.sender_device_id
  pub recipient_device_id : IsArray 16 h.recipient_device_id
  pub sender_key_id : IsArray 32 h.sender_key_id
  pub recipient_key_id : IsArray 32 h.recipient_key_id
  pub message_id : IsArray 16 h.message_id
  pub sequence : h.sequence < 2 ^ 64
  pub created_at_unix_ms : h.created_at_unix_ms < 2 ^ 64
  pub expires_at_unix_ms : h.expires_at_unix_ms < 2 ^ 64

pub data Error : Type 0 where
  wrong_size bad_magic bad_suite reserved_flags : Error
  zero_workspace zero_sender zero_recipient zero_sender_key zero_recipient_key : Error
  zero_message bad_sequence bad_timestamp expiry_not_after_creation ttl_too_long : Error

unfoldable pub validate : Header → Result Error (Unit {0})
validate h = do
  refuse_if (all_zero h.workspace_id) zero_workspace
  refuse_if (all_zero h.sender_device_id) zero_sender
  refuse_if (all_zero h.recipient_device_id) zero_recipient
  refuse_if (all_zero h.sender_key_id) zero_sender_key
  refuse_if (all_zero h.recipient_key_id) zero_recipient_key
  refuse_if (all_zero h.message_id) zero_message
  refuse_if (h.sequence == 0 || ltb max_int64 h.sequence) bad_sequence
  refuse_if (ltb max_safe_millis h.created_at_unix_ms || ltb max_safe_millis h.expires_at_unix_ms)
      bad_timestamp
  refuse_if (leb h.expires_at_unix_ms h.created_at_unix_ms) expiry_not_after_creation
  refuse_if (ltb max_ttl_millis (h.expires_at_unix_ms - h.created_at_unix_ms)) ttl_too_long

-- The writes of `Encode`, in the source's order.
unfoldable pub fields : Header → List Field
fields h =
    field 0 4 magic
    ∷ field 4 6 (put 2 suite_id)
    ∷ field 6 8 (put 2 0)
    ∷ field 8 24 h.workspace_id
    ∷ field 24 40 h.sender_device_id
    ∷ field 40 56 h.recipient_device_id
    ∷ field 56 88 h.sender_key_id
    ∷ field 88 120 h.recipient_key_id
    ∷ field 120 136 h.message_id
    ∷ field 136 144 (put 8 h.sequence)
    ∷ field 144 152 (put 8 h.created_at_unix_ms)
    ∷ field 152 160 (put 8 h.expires_at_unix_ms)
    ∷ []

unfoldable pub encode : Header → Result Error Bytes
encode h = do validate h; ok (write_all (fields h) (make encoded_size))

-- The reads of `Decode`.
unfoldable pub parse : Bytes → Header
parse encoded = record {
  workspace_id = slice 8 24 encoded;
  sender_device_id = slice 24 40 encoded;
  recipient_device_id = slice 40 56 encoded;
  sender_key_id = slice 56 88 encoded;
  recipient_key_id = slice 88 120 encoded;
  message_id = slice 120 136 encoded;
  sequence = get (slice 136 144 encoded);
  created_at_unix_ms = get (slice 144 152 encoded);
  expires_at_unix_ms = get (slice 152 160 encoded);
}

unfoldable pub decode : Bytes → Result Error Header
decode encoded = do
  refuse_if (not (length encoded == encoded_size)) wrong_size
  refuse_if (not (equal (slice 0 4 encoded) magic)) bad_magic
  refuse_if (not (get (slice 4 6 encoded) == suite_id)) bad_suite
  refuse_if (not (get (slice 6 8 encoded) == 0)) reserved_flags
  validate (parse encoded)
  ok (parse encoded)

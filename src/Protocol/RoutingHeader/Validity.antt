-- ===== src/Protocol/RoutingHeader/Validity.antt =====
-- `Validate` decides the declarative reading of its limits.
use seven_mirror_server.Common.{◌+◌, ◌≤◌, ◌<◌, ◌≡◌, ◌↔◌, false, arith}
use seven_mirror_server.Common.Result.{ok}
use seven_mirror_server.Common.Bytes.{all_zero}
use seven_mirror_server.Protocol.RoutingHeader.{
  Header, validate, max_ttl_millis, max_safe_millis, max_int64,
}

-- The v1 structural limits.
pub record IsValid (h : Header) : Type 0 where
  pub workspace : all_zero h.workspace_id ≡ false
  pub sender : all_zero h.sender_device_id ≡ false
  pub recipient : all_zero h.recipient_device_id ≡ false
  pub sender_key : all_zero h.sender_key_id ≡ false
  pub recipient_key : all_zero h.recipient_key_id ≡ false
  pub message : all_zero h.message_id ≡ false
  pub positive_sequence : 0 < h.sequence
  pub sequence_range : h.sequence ≤ max_int64
  pub created_range : h.created_at_unix_ms ≤ max_safe_millis
  pub expires_range : h.expires_at_unix_ms ≤ max_safe_millis
  pub expires_later : h.created_at_unix_ms < h.expires_at_unix_ms
  pub ttl_range : h.expires_at_unix_ms ≤ h.created_at_unix_ms + max_ttl_millis

pub validate-IsValid : (h : Header) → validate h ≡ ok tt → IsValid h
unfolding validate
validate-IsValid h e = ground arith

pub IsValid-validate : (h : Header) → IsValid h → validate h ≡ ok tt
unfolding validate
IsValid-validate h v = ground arith

-- `Validate` accepts a header exactly when all its identifiers are non-zero, the sequence is in
-- 1..2^63-1, both times are at most 2^53-1, and the lifetime is positive and at most 24 hours.
pub validate_iff : (h : Header) → (validate h ≡ ok tt) ↔ IsValid h
validate_iff h = (validate-IsValid h, IsValid-validate h)

-- ===== src/Delivery/Log/Appends.antt =====
-- An append to a consistent mailbox succeeds, and the new delivery can be read.
use seven_mirror_server.Common.{ℕ, suc, ◌+◌, ◌<◌, ◌≡◌, refl, List, arith, length}
use seven_mirror_server.Common.Result.{ok}
use seven_mirror_server.Common.Bytes.{Bytes}
use seven_mirror_server.Protocol.RoutingHeader.{max_int64}
use seven_mirror_server.Delivery.{
  Mailbox, Recipient, append_delivery, ensure_delivery_state, insert_delivery,
  compact_expired_deliveries, new_row, with_row, save, unix_milli,
}
use seven_mirror_server.Delivery.Capacity.Bounds.{enforce_total, enforce-Trimmed, Trimmed}
use seven_mirror_server.Delivery.Log.{Refines, RefinesRecipient}
use seven_mirror_server.Delivery.Log.Operations.{compact-Refines, with_row-Refines, insert_total}
use seven_mirror_server.Delivery.Log.Reads.{ensure-Refines}

-- What an append is asked to do.
pub record IsDelivery (envelope : Bytes) (expires_at now : ℕ) : Type 0 where
  pub content : 0 < length envelope
  pub time : 0 < now
  pub expiry : now < expires_at

-- The mailbox with the new row, before the capacity is enforced.
abbrev pub with_delivery : Mailbox → Bytes → ℕ → ℕ → Mailbox
with_delivery m envelope expires_at now =
    let compacted = compact_expired_deliveries (unix_milli now) m in
    with_row compacted (new_row envelope expires_at now compacted.next_delivery_id)

-- On a mailbox that holds the history, whose sequence has not run out, an append of a non-empty
-- envelope that expires after a known time succeeds with the next number. Its capacity loop has
-- fuel enough, and removes the shortest run of oldest rows that makes the rest fit both limits.
pub append_total :
    (log : List Bytes) (r : Recipient) (m : Mailbox) (envelope : Bytes) (expires_at now : ℕ)
    → RefinesRecipient log r
    → ensure_delivery_state r ≡ ok m
    → IsDelivery envelope expires_at now
    → length log + 1 < max_int64
    → (final : Mailbox) × (append_delivery r envelope expires_at now
        ≡ ok (length log + 1, save r final))
      × Trimmed (with_delivery m envelope expires_at now).rows final.rows
unfolding append_delivery
append_total log r m envelope expires_at now v created d h =
    let compacted : Mailbox = compact_expired_deliveries (unix_milli now) m in
    let kept : Refines log compacted =
      compact-Refines log m (unix_milli now) (ensure-Refines log r m v created) in
    let inserted : Mailbox = with_delivery m envelope expires_at now in
    let stored : insert_delivery envelope expires_at now compacted ≡ ok inserted =
      insert_total log compacted envelope expires_at now kept (omega (arith, kept.next)) in
    let (final, returned, fits) =
      enforce_total (suc (length inserted.rows)) inserted (omega arith) in
    (
      final,
      ground (arith, kept.next, stored, returned),
      enforce-Trimmed (suc (length inserted.rows)) 0 inserted final inserted.rows refl
          (with_row-Refines log compacted
            (new_row envelope expires_at now compacted.next_delivery_id) kept refl).ordered
          returned,
    )

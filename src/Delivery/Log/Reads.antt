-- ===== src/Delivery/Log/Reads.antt =====
-- What a reader gets of the history.
use seven_mirror_server.Common.{
  ℕ, ◌≤◌, ◌<◌, ◌≡◌, sym, subst, inl, inr, Bool, true, false, none, some, List, [], arith, ltb,
  length, take, drop, Bool-cases, Option, if◌then◌else◌,
}
use seven_mirror_server.Common.Result.{ok, err}
use seven_mirror_server.Common.Bytes.{Bytes}
use seven_mirror_server.Protocol.RoutingHeader.{max_int64}
use seven_mirror_server.Delivery.{
  Mailbox, Recipient, DeliveryBatch, StoredDelivery, cursor_ahead, floor, acknowledge_new,
  acknowledge_through, new_mailbox, mark_unavailable_through, deliveries_after,
  compact_expired_deliveries, ensure_delivery_state, resume_mailbox, resume_deliveries,
  read_mailbox, read_deliveries, save, unix_milli,
}
use seven_mirror_server.Delivery.Rows.{Holds-raise, number, deliveries_after-Holds, after-after}
use seven_mirror_server.Delivery.Log.{Refines, RefinesSlot, RefinesRecipient, new_mailbox-Refines}
use seven_mirror_server.Delivery.Log.Operations.{compact-Refines}

-- The next entries of a history for a reader that has everything up to `cursor`.
abbrev pub next_entries : List Bytes → ℕ → ℕ → List StoredDelivery
next_entries log cursor limit = take limit (number cursor (drop cursor log))

-- The answer for a history and the mark below which a reader must start over.
abbrev pub answer : List Bytes → ℕ → ℕ → ℕ → DeliveryBatch
answer log mark cursor limit =
    if ltb cursor mark
    then record { high_water = length log; reset_required = true; deliveries = [] }
    else record {
      high_water = length log;
      reset_required = false;
      deliveries = next_entries log cursor limit;
    }

reads_above :
    (log : List Bytes) (m : Mailbox) (cursor limit : ℕ)
    → Refines log m
    → floor m ≤ cursor
    → deliveries_after cursor limit m.rows ≡ next_entries log cursor limit
reads_above log m cursor limit v h =
    deliveries_after-Holds log cursor limit m.rows
      (Holds-raise log (floor m) cursor m.rows h v.held)

-- After acknowledging up to the cursor the rows above the cursor are the same.
reads_acknowledged :
    (log : List Bytes) (m : Mailbox) (cursor limit : ℕ)
    → Refines log m
    → floor m ≤ cursor
    → deliveries_after cursor limit (acknowledge_new cursor m).rows ≡ next_entries log cursor limit
unfolding acknowledge_new acknowledge_through deliveries_after
reads_acknowledged log m cursor limit v h =
    elim (Bool-cases (ltb m.acknowledged_delivery_id cursor)) [
      | inr old ↦ rw old (reads_above log m cursor limit v h)
      | inl new ↦
          rw new (
            rw (after-after cursor cursor m.rows (omega arith))
              (reads_above log m cursor limit v h))
    ]

-- What a resume leaves behind.
abbrev pub resumed : ℕ → Mailbox → Mailbox
resumed cursor m = if ltb cursor (floor m) then m else acknowledge_new cursor m

resume_mailbox_lem :
    (log : List Bytes) (m : Mailbox) (cursor limit : ℕ)
    → Refines log m
    → resume_mailbox m cursor limit ≡ (
        if ltb (length log) cursor
        then err cursor_ahead
        else ok (answer log (floor m) cursor limit, resumed cursor m))
unfolding resume_mailbox
resume_mailbox_lem log m cursor limit v = elim (Bool-cases (ltb cursor (floor m))) [
  | inl low ↦ ground (arith, v.next)
  | inr high ↦ ground (arith, v.next, reads_acknowledged log m cursor limit v (ground arith))
]

ensure_slot-Refines :
    (log : List Bytes) (device_row : Bool) (slot : Option Mailbox) (m : Mailbox)
    → RefinesSlot log slot
    → ensure_delivery_state (record { device_row = device_row; mailbox = slot }) ≡ ok m
    → Refines log m
unfolding ensure_delivery_state
ensure_slot-Refines log device_row none m v e =
    let fresh : new_mailbox ≡ m = ground arith in
    subst (Refines log) fresh (subst (λ l. Refines l new_mailbox) (sym v) new_mailbox-Refines)
ensure_slot-Refines log device_row (some m0) m v e = subst (Refines log) (cc e) v

-- The mailbox that a request works on, created if it is new.
pub ensure-Refines :
    (log : List Bytes) (r : Recipient) (m : Mailbox)
    → RefinesRecipient log r
    → ensure_delivery_state r ≡ ok m
    → Refines log m
ensure-Refines log r m v e = ensure_slot-Refines log r.device_row r.mailbox m v e

-- The arguments that both readers accept.
pub record IsRequest (cursor now limit : ℕ) : Type 0 where
  pub cursor_range : cursor ≤ max_int64
  pub time : 0 < now
  pub lower : 1 ≤ limit
  pub upper : limit ≤ 256

-- On a mailbox that holds the history a resume with acceptable arguments fails exactly where the
-- cursor is beyond the history. Otherwise, with expired rows removed, it asks a reader below the
-- larger mark to start over, and gives any other the next entries of the history, in order and
-- with none missing, at most `limit` of them; what it acknowledges is saved.
pub resume_answer :
    (log : List Bytes) (r : Recipient) (m : Mailbox) (cursor now limit : ℕ)
    → RefinesRecipient log r
    → ensure_delivery_state r ≡ ok m
    → IsRequest cursor now limit
    → let compacted = compact_expired_deliveries (unix_milli now) m in
      resume_deliveries r cursor now limit ≡ (
        if ltb (length log) cursor
        then err cursor_ahead
        else ok (answer log (floor compacted) cursor limit, save r (resumed cursor compacted)))
unfolding resume_deliveries
resume_answer log r m cursor now limit v e q =
    let compacted : Mailbox = compact_expired_deliveries (unix_milli now) m in
    ground (
      arith,
      resume_mailbox_lem log compacted cursor limit
          (compact-Refines log m (unix_milli now) (ensure-Refines log r m v e)),
    )

pub acknowledged-compact :
    (now : ℕ) (m : Mailbox)
    → (compact_expired_deliveries now m).acknowledged_delivery_id ≡ m.acknowledged_delivery_id
unfolding compact_expired_deliveries mark_unavailable_through
acknowledged-compact now m = ground arith

-- On a mailbox that holds the history a read with acceptable arguments, from a cursor at or above
-- the acknowledgement, removes expired rows, asks a reader below the mark of what is unavailable to
-- start over, and gives any other the next entries of the history, in order and with none missing,
-- at most `limit` of them.
pub read_answer :
    (log : List Bytes) (r : Recipient) (m : Mailbox) (cursor now limit : ℕ)
    → RefinesRecipient log r
    → r.mailbox ≡ some m
    → IsRequest cursor now limit
    → m.acknowledged_delivery_id ≤ cursor
    → let compacted = compact_expired_deliveries (unix_milli now) m in
      read_deliveries r cursor now limit
      ≡ ok (answer log compacted.unavailable_through_id cursor limit, save r compacted)
unfolding read_deliveries read_mailbox
read_answer log r m cursor now limit v e q h =
    let held : Refines log m = subst (RefinesSlot log) e v in
    let compacted : Mailbox = compact_expired_deliveries (unix_milli now) m in
    let kept : Refines log compacted = compact-Refines log m (unix_milli now) held in
    rw (e, read_deliveries)
      (ground (
        arith,
        kept.next,
        acknowledged-compact (unix_milli now) m,
        reads_above log compacted cursor limit kept,
      ))

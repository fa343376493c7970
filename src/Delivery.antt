-- ===== src/Delivery.antt =====
-- internal/admission/relay_delivery_store.go: the durable queue of one recipient. Every statement
-- there is restricted to one (workspace_id, recipient_device_id), so the tables are modelled as the
-- rows of that recipient. A row of relay_deliveries references the row of relay_delivery_state, so
-- there are none without it. A transaction that returns an error is rolled back: it returns no new
-- state. Failures of the database driver itself are left out.
-- Instants are nanoseconds since Go's zero time, so `IsZero` is a test against 0, and milliseconds
-- are counted from there too: they differ from `UnixMilli` by a constant, and are only compared.
pub mod Rows
pub mod Log
pub mod Capacity
pub mod Examples
use seven_mirror_server.Common.{
  ℕ, zero, suc, ◌+◌, ◌-◌, ◌*◌, ◌/◌, ◌^◌, ◌≡◌, max, Bool, true, false, ◌||◌, ◌&&◌, not, Option, none,
  some, List, [], ◌∷◌, ◌++◌, map, ltb, leb, ◌==◌, length, take, select, if◌then◌else◌,
}
use seven_mirror_server.Common.Result.{Result, ok, err, ◌>>=◌, ◌>>◌, refuse_if}
use seven_mirror_server.Common.Bytes.{Bytes}
use seven_mirror_server.Protocol.RoutingHeader.{max_int64}

abbrev pub max_queued_deliveries_per_recipient : ℕ
max_queued_deliveries_per_recipient = 4096

abbrev pub max_queued_delivery_bytes_per_recipient : ℕ
max_queued_delivery_bytes_per_recipient = 64 * 1024 * 1024

abbrev pub unix_milli : ℕ → ℕ
unix_milli t = t / 1000000

-- A row of relay_deliveries.
pub record Row : Type 0 where
  pub delivery_id : ℕ
  pub envelope : Bytes
  pub expires_at_ms : ℕ
  pub created_at_ms : ℕ

-- The row of relay_delivery_state, with the deliveries that reference it.
pub record Mailbox : Type 0 where
  pub next_delivery_id : ℕ
  pub acknowledged_delivery_id : ℕ
  pub unavailable_through_id : ℕ
  pub rows : List Row

-- What the database holds for one recipient: whether the row of devices is there that
-- relay_delivery_state references, and the mailbox.
pub record Recipient : Type 0 where
  pub device_row : Bool
  pub mailbox : Option Mailbox

pub record StoredDelivery : Type 0 where
  pub id : ℕ
  pub envelope : Bytes

pub record DeliveryBatch : Type 0 where
  pub high_water : ℕ
  pub reset_required : Bool
  pub deliveries : List StoredDelivery

pub data Error : Type 0 where
  invalid_delivery invalid_resume invalid_read invalid_acknowledgement : Error
  unknown_device sequence_unavailable duplicate_delivery no_delivery_state : Error
  nothing_to_evict cursor_ahead out_of_fuel : Error

abbrev pub new_mailbox : Mailbox
new_mailbox = record {
  next_delivery_id = 1;
  acknowledged_delivery_id = 0;
  unavailable_through_id = 0;
  rows = [];
}

-- INSERT OR IGNORE: the foreign key to devices is checked where the row is new.
unfoldable pub ensure_delivery_state : Recipient → Result Error Mailbox
ensure_delivery_state r = elim r.mailbox [
  | some m ↦ ok m
  | none ↦ if r.device_row then ok new_mailbox else err unknown_device
]

-- SELECT MAX(delivery_id)
unfoldable pub max_id : List Row → Option ℕ
max_id [] = none
max_id (r ∷ rs) = elim (max_id rs) [
  | none ↦ some r.delivery_id
  | some n ↦ some (max r.delivery_id n)
]

-- SELECT delivery_id … ORDER BY delivery_id LIMIT 1
unfoldable pub min_id : List Row → Option ℕ
min_id [] = none
min_id (r ∷ rs) = elim (min_id rs) [
  | none ↦ some r.delivery_id
  | some n ↦ some (if leb r.delivery_id n then r.delivery_id else n)
]

-- SELECT COALESCE(SUM(length(envelope)), 0)
unfoldable pub total_bytes : List Row → ℕ
total_bytes [] = 0
total_bytes (r ∷ rs) = length r.envelope + total_bytes rs

-- ORDER BY delivery_id
unfoldable pub insert_by_id : Row → List Row → List Row
insert_by_id r [] = r ∷ []
insert_by_id r (s ∷ rs) =
    if leb r.delivery_id s.delivery_id then r ∷ s ∷ rs else s ∷ insert_by_id r rs

unfoldable pub order_by_id : List Row → List Row
order_by_id [] = []
order_by_id (r ∷ rs) = insert_by_id r (order_by_id rs)

-- WHERE delivery_id > ?
abbrev pub after : ℕ → List Row → List Row
after cursor = select (λ r. ltb cursor r.delivery_id)

abbrev pub stored : Row → StoredDelivery
stored r = record { id = r.delivery_id; envelope = r.envelope }

-- The SELECT of both readers.
unfoldable pub deliveries_after : ℕ → ℕ → List Row → List StoredDelivery
deliveries_after cursor limit rows = map stored (take limit (order_by_id (after cursor rows)))

unfoldable pub mark_unavailable_through : ℕ → Mailbox → Mailbox
mark_unavailable_through cursor m = record m {
  unavailable_through_id = max m.unavailable_through_id cursor;
}

unfoldable pub acknowledge_through : ℕ → Mailbox → Mailbox
acknowledge_through cursor m = record m {
  acknowledged_delivery_id = max m.acknowledged_delivery_id cursor;
  rows = after cursor m.rows;
}

abbrev pub is_expired : ℕ → Row → Bool
is_expired now r = leb r.expires_at_ms now

unfoldable pub compact_expired_deliveries : ℕ → Mailbox → Mailbox
compact_expired_deliveries now m = elim (max_id (select (is_expired now) m.rows)) [
  | none ↦ m
  | some through ↦
      mark_unavailable_through through
        (record m { rows = select (λ r. not (is_expired now r)) m.rows })
]

abbrev pub fits_capacity : List Row → Bool
fits_capacity rows =
    leb (length rows) max_queued_deliveries_per_recipient
    && leb (total_bytes rows) max_queued_delivery_bytes_per_recipient

-- One round of the loop removes the oldest row and records that it is gone.
unfoldable pub evict : ℕ → Mailbox → Mailbox
evict oldest m =
    mark_unavailable_through oldest
      (record m { rows = select (λ r. not (r.delivery_id == oldest)) m.rows })

-- `for { … }` with fuel.
unfoldable pub enforce_delivery_capacity : ℕ → Mailbox → Result Error Mailbox
enforce_delivery_capacity zero m = err out_of_fuel
enforce_delivery_capacity (suc fuel) m = elim (fits_capacity m.rows) [
  | true ↦ ok m
  | false ↦ elim (min_id m.rows) [
    | none ↦ err nothing_to_evict
    | some oldest ↦ enforce_delivery_capacity fuel (evict oldest m)
  ]
]

unfoldable pub has_id : ℕ → List Row → Bool
has_id n [] = false
has_id n (r ∷ rs) = r.delivery_id == n || has_id n rs

abbrev pub new_row : Bytes → ℕ → ℕ → ℕ → Row
new_row envelope expires_at now id = record {
  delivery_id = id;
  envelope = envelope;
  expires_at_ms = unix_milli expires_at;
  created_at_ms = unix_milli now;
}

abbrev pub with_row : Mailbox → Row → Mailbox
with_row m r = record m { next_delivery_id = m.next_delivery_id + 1; rows = m.rows ++ r ∷ [] }

-- INSERT of the row, whose key must be new, and UPDATE of the sequence.
unfoldable pub insert_delivery : Bytes → ℕ → ℕ → Mailbox → Result Error Mailbox
insert_delivery envelope expires_at now m = do
  refuse_if (ltb m.next_delivery_id 1 || m.next_delivery_id == max_int64) sequence_unavailable
  refuse_if (has_id m.next_delivery_id m.rows) duplicate_delivery
  ok (with_row m (new_row envelope expires_at now m.next_delivery_id))

abbrev pub save : Recipient → Mailbox → Recipient
save r m = record r { mailbox = some m }

unfoldable pub append_delivery : Recipient → Bytes → ℕ → ℕ → Result Error (ℕ × Recipient)
append_delivery r envelope expires_at now = do
  refuse_if (length envelope == 0 || expires_at == 0 || now == 0 || leb expires_at now)
      invalid_delivery
  m ← ensure_delivery_state r
  let compacted = compact_expired_deliveries (unix_milli now) m
  inserted ← insert_delivery envelope expires_at now compacted
  final ← enforce_delivery_capacity (suc (length inserted.rows)) inserted
  ok (compacted.next_delivery_id, save r final)

-- The larger of the two marks below which nothing can be read.
abbrev pub floor : Mailbox → ℕ
floor m =
    if ltb m.acknowledged_delivery_id m.unavailable_through_id
    then m.unavailable_through_id
    else m.acknowledged_delivery_id

-- `if int64(cursor) > acknowledged { acknowledgeThrough }`
unfoldable pub acknowledge_new : ℕ → Mailbox → Mailbox
acknowledge_new cursor m =
    if ltb m.acknowledged_delivery_id cursor then acknowledge_through cursor m else m

unfoldable pub resume_mailbox : Mailbox → ℕ → ℕ → Result Error (DeliveryBatch × Mailbox)
resume_mailbox m cursor limit = do
  let high_water = m.next_delivery_id - 1
  refuse_if (ltb high_water cursor) cursor_ahead
  if ltb cursor (floor m)
      then ok (record { high_water = high_water; reset_required = true; deliveries = [] }, m)
      else (let acknowledged = acknowledge_new cursor m in
          ok (
            record {
              high_water = high_water;
              reset_required = false;
              deliveries = deliveries_after cursor limit acknowledged.rows;
            },
            acknowledged,
          ))

-- The commit of a transaction that answers with a batch.
abbrev pub saved :
    Recipient → Result Error (DeliveryBatch × Mailbox) → Result Error (DeliveryBatch × Recipient)
saved r (ok (batch, m)) = ok (batch, save r m)
saved r (err e) = err e

unfoldable pub resume_deliveries : Recipient → ℕ → ℕ → ℕ → Result Error (DeliveryBatch × Recipient)
resume_deliveries r cursor now limit = do
  refuse_if (ltb max_int64 cursor || now == 0 || ltb limit 1 || ltb 256 limit) invalid_resume
  m ← ensure_delivery_state r
  saved r (resume_mailbox (compact_expired_deliveries (unix_milli now) m) cursor limit)

unfoldable pub read_mailbox : Mailbox → ℕ → ℕ → DeliveryBatch
read_mailbox m cursor limit =
    if ltb cursor m.unavailable_through_id
    then record { high_water = m.next_delivery_id - 1; reset_required = true; deliveries = [] }
    else record {
      high_water = m.next_delivery_id - 1;
      reset_required = false;
      deliveries = deliveries_after cursor limit m.rows;
    }

-- Reading does not create the state: without it the SELECT fails.
unfoldable pub read_deliveries : Recipient → ℕ → ℕ → ℕ → Result Error (DeliveryBatch × Recipient)
read_deliveries r cursor now limit = do
  refuse_if (ltb max_int64 cursor || now == 0 || ltb limit 1 || ltb 256 limit) invalid_read
  elim r.mailbox [
    | none ↦ err no_delivery_state
    | some m ↦
        let compacted = compact_expired_deliveries (unix_milli now) m in
        ok (read_mailbox compacted cursor limit, save r compacted)
  ]

unfoldable pub acknowledge_delivery : Recipient → ℕ → Result Error Recipient
acknowledge_delivery r cursor = do
  refuse_if (cursor == 0 || ltb max_int64 cursor) invalid_acknowledgement
  m ← ensure_delivery_state r
  refuse_if (leb m.next_delivery_id cursor) cursor_ahead
  ok (save r (acknowledge_new cursor m))

-- ===== src/Delivery/Log.antt =====
-- A mailbox as an append-only history with two marks: every operation keeps the rows above the
-- marks equal to the history, so no reader can meet a gap that it is not told of.
pub mod Operations
pub mod Reads
pub mod Runs
pub mod Appends
use seven_mirror_server.Common.{
  ℕ, ◌+◌, ◌≤◌, ◌≡◌, refl, max, Option, none, some, List, [], arith, ltb, length, drop, All,
  if◌then◌else◌,
}
use seven_mirror_server.Common.Bytes.{Bytes}
use seven_mirror_server.Delivery.{Mailbox, Recipient, Row, floor, new_mailbox}
use seven_mirror_server.Delivery.Rows.{Holds, Ascending}

-- `log` is every envelope that was appended, the oldest first; the entry with id n stands at n - 1.
pub record Refines (log : List Bytes) (m : Mailbox) : Type 0 where
  pub next : m.next_delivery_id ≡ length log + 1
  pub acknowledged : m.acknowledged_delivery_id ≤ length log
  pub unavailable : m.unavailable_through_id ≤ length log
  pub ids : All (λ r. r.delivery_id ≤ length log) m.rows
  pub ordered : Ascending 0 m.rows
  pub held : Holds log (floor m) m.rows

-- A recipient with no state yet has an empty history.
abbrev pub RefinesSlot : List Bytes → Option Mailbox → Type 0
RefinesSlot log none = log ≡ []
RefinesSlot log (some m) = Refines log m

abbrev pub RefinesRecipient : List Bytes → Recipient → Type 0
RefinesRecipient log r = RefinesSlot log r.mailbox

pub new_mailbox-Refines : Refines [] new_mailbox
new_mailbox-Refines = record {
  next = omega arith;
  acknowledged = omega arith;
  unavailable = omega arith;
  ids = tt;
  ordered = tt;
  held = refl;
}

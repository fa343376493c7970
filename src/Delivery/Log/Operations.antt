-- ===== src/Delivery/Log/Operations.antt =====
-- Each step of a transaction keeps the history.
use native.Mathlib.Nat.{le_trans}
use seven_mirror_server.Common.{
  ℕ, zero, suc, ◌+◌, ◌≤◌, ◌<◌, ◌≡◌, ◌≢◌, refl, sym, ap, ◌∙◌, subst, ◌⊎◌, inl, inr, max, Bool, true,
  false, not, some, List, [], ◌∷◌, ◌++◌, map, map-append, arith, ltb, ◌==◌, length, drop, select,
  All, All-map, All-select, All-append, select-append, length-append, drop-append_le, length-drop,
  Option-cases, Bool-cases,
}
use seven_mirror_server.Common.Result.{ok}
use seven_mirror_server.Common.Bytes.{Bytes}
use seven_mirror_server.Protocol.RoutingHeader.{max_int64}
use seven_mirror_server.Delivery.{
  Mailbox, Row, floor, after, stored, is_expired, max_id, min_id, fits_capacity, has_id, new_row,
  with_row, mark_unavailable_through, acknowledge_through, acknowledge_new,
  compact_expired_deliveries, evict, enforce_delivery_capacity, insert_delivery,
}
use seven_mirror_server.Delivery.Rows.{
  Holds, Ascending-select, Ascending-append, Holds-raise, after-select, number, number-append,
  max_id-bound, max_id-le, min_id-le,
}
use seven_mirror_server.Delivery.Capacity.{enforce_stop, enforce_next, enforce_nothing}
use seven_mirror_server.Delivery.Log.{Refines}

-- Raising the floor of a mailbox and dropping rows below it keeps what is held.
held_above :
    (log : List Bytes) (d c : ℕ) (p : Row → Bool) (rows : List Row)
    → d ≤ c
    → All (λ r. (p r ≡ true) ⊎ (r.delivery_id ≤ c)) rows
    → Holds log d rows
    → Holds log c (select p rows)
held_above log d c p rows h gone held =
    ap (map stored) (after-select c p rows gone) ∙ Holds-raise log d c rows h held

-- Rows at or below `mark` may go, if the mark of what is unavailable is raised to it.
drop_rows-Refines :
    (log : List Bytes) (m : Mailbox) (p : Row → Bool) (mark : ℕ)
    → Refines log m
    → mark ≤ length log
    → All (λ r. (p r ≡ true) ⊎ (r.delivery_id ≤ mark)) m.rows
    → Refines log (mark_unavailable_through mark (record m { rows = select p m.rows }))
unfolding mark_unavailable_through
drop_rows-Refines log m p mark v h gone =
    let raised : ℕ =
      floor (record m { unavailable_through_id = max m.unavailable_through_id mark }) in
    let above : mark ≤ raised = ground arith in
    record {
      next = v.next;
      acknowledged = v.acknowledged;
      unavailable = omega (arith, v.unavailable);
      ids = All-select _ p m.rows v.ids;
      ordered = Ascending-select 0 p m.rows v.ordered;
      held =
          held_above log (floor m) raised p m.rows (ground arith)
            (All-map _ _ (λ r g. weaken r (p r ≡ true) mark raised above g) m.rows gone) v.held;
    }
  where
    weaken :
        (r : Row) (P : Type 0) (low high : ℕ)
        → low ≤ high
        → P ⊎ (r.delivery_id ≤ low)
        → P ⊎ (r.delivery_id ≤ high)
    weaken r P low high k (inl x) = inl x
    weaken r P low high k (inr x) = inr (le_trans x k)

evict_keeps :
    (n : ℕ) (rows : List Row)
    → All (λ r. (not (r.delivery_id == n) ≡ true) ⊎ (r.delivery_id ≤ n)) rows
evict_keeps n [] = tt
evict_keeps n (r ∷ rs) = (ground arith, evict_keeps n rs)

-- An eviction is recorded.
pub evict-Refines :
    (log : List Bytes) (m : Mailbox) (oldest : ℕ)
    → Refines log m
    → min_id m.rows ≡ some oldest
    → Refines log (evict oldest m)
unfolding evict
evict-Refines log m oldest v e =
    drop_rows-Refines log m _ oldest v (min_id-le (length log) m.rows oldest v.ids e)
      (evict_keeps oldest m.rows)

-- Expired rows are at or below the largest of their ids.
expired_keeps :
    (now n : ℕ) (rows : List Row)
    → All (λ r. r.delivery_id ≤ n) (select (is_expired now) rows)
    → All (λ r. (not (is_expired now r) ≡ true) ⊎ (r.delivery_id ≤ n)) rows
expired_keeps now n [] h = tt
expired_keeps now n (r ∷ rs) h = elim (Bool-cases (is_expired now r)) [
  | inl gone ↦
      let parts : All (λ s. s.delivery_id ≤ n) (r ∷ select (is_expired now) rs) = rw gone at h in
      (inr parts.0, expired_keeps now n rs parts.1)
  | inr fresh ↦
      let rest : All (λ s. s.delivery_id ≤ n) (select (is_expired now) rs) = rw fresh at h in
      (inl (ap not fresh), expired_keeps now n rs rest)
]

-- Expiry is recorded.
pub compact-Refines :
    (log : List Bytes) (m : Mailbox) (now : ℕ)
    → Refines log m
    → Refines log (compact_expired_deliveries now m)
unfolding compact_expired_deliveries
compact-Refines log m now v = elim (Option-cases (max_id (select (is_expired now) m.rows))) [
  | inl e ↦ rw (e, compact_expired_deliveries) v
  | inr (n, e) ↦
      rw (e, compact_expired_deliveries)
        (drop_rows-Refines log m _ n v
          (max_id-le (length log) _ n (All-select _ (is_expired now) m.rows v.ids) e)
          (expired_keeps now n m.rows (max_id-bound _ n e)))
]

after_keeps :
    (c n : ℕ) (rows : List Row)
    → c ≤ n
    → All (λ r. (ltb c r.delivery_id ≡ true) ⊎ (r.delivery_id ≤ n)) rows
after_keeps c n [] h = tt
after_keeps c n (r ∷ rs) h = (ground arith, after_keeps c n rs h)

acknowledge_through-Refines :
    (log : List Bytes) (m : Mailbox) (cursor : ℕ)
    → Refines log m
    → cursor ≤ length log
    → Refines log (acknowledge_through cursor m)
unfolding acknowledge_through
acknowledge_through-Refines log m cursor v h =
    let raised : ℕ =
      floor (record m { acknowledged_delivery_id = max m.acknowledged_delivery_id cursor }) in
    record {
      next = v.next;
      acknowledged = omega (arith, v.acknowledged);
      unavailable = v.unavailable;
      ids = All-select _ (λ r. ltb cursor r.delivery_id) m.rows v.ids;
      ordered = Ascending-select 0 (λ r. ltb cursor r.delivery_id) m.rows v.ordered;
      held =
          held_above log (floor m) raised (λ r. ltb cursor r.delivery_id) m.rows (ground arith)
            (after_keeps cursor raised m.rows (ground arith)) v.held;
    }

-- An acknowledgement within the history keeps it.
pub acknowledge-Refines :
    (log : List Bytes) (m : Mailbox) (cursor : ℕ)
    → Refines log m
    → cursor ≤ length log
    → Refines log (acknowledge_new cursor m)
unfolding acknowledge_new
acknowledge-Refines log m cursor v h = elim (Bool-cases (ltb m.acknowledged_delivery_id cursor)) [
  | inr old ↦ rw old v
  | inl new ↦ rw new (acknowledge_through-Refines log m cursor v h)
]

-- The loop keeps the history.
pub enforce-Refines :
    (log : List Bytes) (fuel : ℕ) (m m' : Mailbox)
    → Refines log m
    → enforce_delivery_capacity fuel m ≡ ok m'
    → Refines log m'
unfolding enforce_delivery_capacity
enforce-Refines log zero m m' v e = cc
enforce-Refines log (suc fuel) m m' v e = elim (Bool-cases (fits_capacity m.rows)) [
  | inl fits ↦ subst (Refines log) (cc (enforce_stop fuel m fits)) v
  | inr large ↦ elim (Option-cases (min_id m.rows)) [
    | inl empty ↦ cc (enforce_nothing fuel m large empty)
    | inr (oldest, found) ↦
        enforce-Refines log fuel (evict oldest m) m' (evict-Refines log m oldest v found)
          (sym (enforce_next fuel m oldest large found) ∙ e)
  ]
]

-- A row for the next id extends what is held.
held_appended :
    (log : List Bytes) (c : ℕ) (rows : List Row) (r : Row)
    → r.delivery_id ≡ length log + 1
    → c ≤ length log
    → Holds log c rows
    → Holds (log ++ r.envelope ∷ []) c (rows ++ r ∷ [])
held_appended log c rows r id h held =
    let newest : after c (r ∷ []) ≡ r ∷ [] = ground arith in
    let last : suc (c + length (drop c log)) ≡ r.delivery_id = omega (arith, length-drop c log) in
    ap (map stored) (select-append (λ s. ltb c s.delivery_id) rows (r ∷ []))
    ∙ ap (λ rs. map stored (after c rows ++ rs)) newest
    ∙ map-append stored (after c rows) (r ∷ [])
    ∙ ap (λ ds. ds ++ stored r ∷ []) held
    ∙ ap (λ n. number c (drop c log) ++ record { id = n; envelope = r.envelope } ∷ []) (sym last)
    ∙ sym (number-append c (drop c log) r.envelope)
    ∙ ap (number c) (sym (drop-append_le c log (r.envelope ∷ []) h))

pub with_row-Refines :
    (log : List Bytes) (m : Mailbox) (r : Row)
    → Refines log m
    → r.delivery_id ≡ m.next_delivery_id
    → Refines (log ++ r.envelope ∷ []) (with_row m r)
with_row-Refines log m r v id =
    let longer : length (log ++ r.envelope ∷ []) ≡ length log + 1 =
      omega (arith, length-append log (r.envelope ∷ [])) in
    record {
      next = omega (arith, v.next, longer);
      acknowledged = omega (arith, v.acknowledged, longer);
      unavailable = omega (arith, v.unavailable, longer);
      ids =
          All-append _ m.rows (r ∷ [])
            (All-map _ _ (λ s h. le_trans h (omega (arith, longer))) m.rows v.ids)
            (omega (arith, longer, v.next, id), tt);
      ordered =
          Ascending-append 0 m.rows r v.ordered
            (All-map _ _ (λ s h. omega (arith, h, v.next, id)) m.rows v.ids)
            (omega (arith, v.next, id));
      held =
          held_appended log (floor m) m.rows r (omega (arith, v.next, id))
            (ground (arith, v.acknowledged, v.unavailable)) v.held;
    }

-- An insertion extends the history by the envelope.
pub insert-Refines :
    (log : List Bytes) (m m' : Mailbox) (envelope : Bytes) (expires_at now : ℕ)
    → Refines log m
    → insert_delivery envelope expires_at now m ≡ ok m'
    → Refines (log ++ envelope ∷ []) m'
unfolding insert_delivery
insert-Refines log m m' envelope expires_at now v e =
    let row : Row = new_row envelope expires_at now m.next_delivery_id in
    let same : with_row m row ≡ m' = ground arith in
    subst (Refines (log ++ envelope ∷ [])) same (with_row-Refines log m row v refl)

has_id_above : (n : ℕ) (rows : List Row) → All (λ r. r.delivery_id < n) rows → has_id n rows ≡ false
unfolding has_id
has_id_above n [] h = refl
has_id_above n (r ∷ rs) h = ground (arith, h.0, has_id_above n rs h.1)

-- The key of the new row is always free, so an insertion fails only when the sequence has run out.
pub insert_total :
    (log : List Bytes) (m : Mailbox) (envelope : Bytes) (expires_at now : ℕ)
    → Refines log m
    → m.next_delivery_id ≢ max_int64
    → insert_delivery envelope expires_at now m
      ≡ ok (with_row m (new_row envelope expires_at now m.next_delivery_id))
unfolding insert_delivery
insert_total log m envelope expires_at now v h =
    let free : has_id m.next_delivery_id m.rows ≡ false =
      has_id_above m.next_delivery_id m.rows
        (All-map _ _ (λ r k. omega (arith, k, v.next)) m.rows v.ids) in
    ground (arith, v.next, free)

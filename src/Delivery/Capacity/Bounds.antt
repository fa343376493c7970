-- ===== src/Delivery/Capacity/Bounds.antt =====
-- The loop ends within its fuel, at a mailbox that fits, and removes as few of the oldest rows as
-- that takes.
use seven_mirror_server.Common.{
  ℕ, zero, suc, ◌≤◌, ◌<◌, ◌≡◌, refl, sym, ap, ◌∙◌, subst, inl, inr, true, false, not, none, some,
  List, [], ◌∷◌, arith, length, drop, select, ◌==◌, Option-cases, Bool-cases, length-select-le,
}
use seven_mirror_server.Common.Result.{ok}
use seven_mirror_server.Delivery.{
  Mailbox, Row, min_id, has_id, total_bytes, fits_capacity, evict, mark_unavailable_through,
  enforce_delivery_capacity,
}
use seven_mirror_server.Delivery.Rows.{
  Ascending, min_id_lem, min_id-Ascending, select-Ascending_tail,
}
use seven_mirror_server.Delivery.Capacity.{enforce_stop, enforce_next, enforce_nothing}

-- Removing an id that is there leaves fewer rows.
length-remove :
    (n : ℕ) (rows : List Row)
    → has_id n rows ≡ true
    → length (select (λ r. not (r.delivery_id == n)) rows) < length rows
unfolding has_id
length-remove n [] h = cc
length-remove n (r ∷ rs) h =
    ground (arith, length-remove n rs, length-select-le (λ s. not (s.delivery_id == n)) rs)

empty_fits : (rows : List Row) → min_id rows ≡ none → fits_capacity rows ≡ true
unfolding min_id total_bytes
empty_fits [] e = refl
empty_fits (r ∷ rs) e = elim (Option-cases (min_id rs)) [ inl none_left ↦ cc | inr (n, found) ↦ cc ]

no_id : min_id [] ≡ none
unfolding min_id
no_id = refl

length-evict :
    (m : Mailbox) (oldest : ℕ)
    → min_id m.rows ≡ some oldest
    → length (evict oldest m).rows < length m.rows
unfolding evict mark_unavailable_through
length-evict m oldest e = length-remove oldest m.rows (min_id_lem m.rows oldest e).1

-- With more fuel than rows the loop returns, and what it returns fits both limits.
pub enforce_total :
    (fuel : ℕ) (m : Mailbox)
    → length m.rows < fuel
    → (m' : Mailbox) × (enforce_delivery_capacity fuel m ≡ ok m') × (fits_capacity m'.rows ≡ true)
enforce_total zero m h = absurd (omega arith)
enforce_total (suc fuel) m h = elim (Bool-cases (fits_capacity m.rows)) [
  | inl fits ↦ (m, enforce_stop fuel m fits, fits)
  | inr large ↦ elim (Option-cases (min_id m.rows)) [
    | inl empty ↦ cc (empty_fits m.rows empty)
    | inr (oldest, found) ↦
        let (m', e, fits) =
          enforce_total fuel (evict oldest m) (omega (arith, length-evict m oldest found)) in
        (m', enforce_next fuel m oldest large found ∙ e, fits)
  ]
]

-- `n` rows are gone from the front, and with one fewer gone the rest would not fit.
pub record Trimmed (rows rows' : List Row) : Type 0 where
  pub count : ℕ
  pub rest : rows' ≡ drop count rows
  pub fits : fits_capacity rows' ≡ true
  pub needed : (i : ℕ) → i < count → fits_capacity (drop i rows) ≡ false

Trimmed-cons :
    (r : Row) (rs rows' : List Row)
    → fits_capacity (r ∷ rs) ≡ false
    → Trimmed rs rows'
    → Trimmed (r ∷ rs) rows'
Trimmed-cons r rs rows' large t = record {
  count = suc t.count;
  rest = t.rest;
  fits = t.fits;
  needed = later;
}
  where
    later : (i : ℕ) → i < suc t.count → fits_capacity (drop i (r ∷ rs)) ≡ false
    later zero h = large
    later (suc i) h = t.needed i (omega arith)

rows-evict :
    (k : ℕ) (m : Mailbox) (r : Row) (rs : List Row)
    → m.rows ≡ r ∷ rs
    → Ascending k (r ∷ rs)
    → (evict r.delivery_id m).rows ≡ rs
unfolding evict mark_unavailable_through
rows-evict k m r rs e a =
    ap (select (λ s. not (s.delivery_id == r.delivery_id))) e ∙ select-Ascending_tail k r rs a

Trimmed-refl :
    (rows rows' : List Row) → rows' ≡ rows → fits_capacity rows' ≡ true → Trimmed rows rows'
Trimmed-refl rows rows' e fits = record {
  count = 0;
  rest = e;
  fits = fits;
  needed = λ i h. absurd (omega arith);
}

stopped :
    (fuel : ℕ) (m m' : Mailbox) (rows : List Row)
    → m.rows ≡ rows
    → fits_capacity m.rows ≡ true
    → enforce_delivery_capacity (suc fuel) m ≡ ok m'
    → Trimmed rows m'.rows
stopped fuel m m' rows e fits h =
    let same : m ≡ m' = cc (enforce_stop fuel m fits) in
    subst (λ n. Trimmed rows n.rows) same (Trimmed-refl rows m.rows e fits)

-- The loop drops the shortest run of oldest rows that makes the rest fit.
pub enforce-Trimmed :
    (fuel k : ℕ) (m m' : Mailbox) (rows : List Row)
    → m.rows ≡ rows
    → Ascending k rows
    → enforce_delivery_capacity fuel m ≡ ok m'
    → Trimmed rows m'.rows
unfolding enforce_delivery_capacity
enforce-Trimmed zero k m m' rows e a h = cc
enforce-Trimmed (suc fuel) k m m' [] e a h =
    stopped fuel m m' [] e (empty_fits m.rows (ap min_id e ∙ no_id)) h
enforce-Trimmed (suc fuel) k m m' (r ∷ rs) e a h = elim (Bool-cases (fits_capacity m.rows)) [
  | inl fits ↦ stopped fuel m m' (r ∷ rs) e fits h
  | inr large ↦
      let oldest : min_id m.rows ≡ some r.delivery_id = ap min_id e ∙ min_id-Ascending k r rs a in
      Trimmed-cons r rs m'.rows (ap fits_capacity (sym e) ∙ large) (
        enforce-Trimmed fuel r.delivery_id (evict r.delivery_id m) m' rs (rows-evict k m r rs e a)
          a.1 (sym (enforce_next fuel m r.delivery_id large oldest) ∙ h))
]

-- The loop leaves the sequence and the acknowledgement alone.
pub enforce_marks :
    (fuel : ℕ) (m m' : Mailbox)
    → enforce_delivery_capacity fuel m ≡ ok m'
    → (m'.next_delivery_id ≡ m.next_delivery_id)
      × (m'.acknowledged_delivery_id ≡ m.acknowledged_delivery_id)
      × (m.unavailable_through_id ≤ m'.unavailable_through_id)
unfolding enforce_delivery_capacity evict mark_unavailable_through
enforce_marks zero m m' h = cc
enforce_marks (suc fuel) m m' h = elim (Bool-cases (fits_capacity m.rows)) [
  | inl fits ↦ let same : m ≡ m' = cc (enforce_stop fuel m fits) in ground (arith, same)
  | inr large ↦ elim (Option-cases (min_id m.rows)) [
    | inl empty ↦ cc (enforce_nothing fuel m large empty)
    | inr (oldest, found) ↦ omega (
      arith,
      enforce_marks fuel (evict oldest m) m' (sym (enforce_next fuel m oldest large found) ∙ h),
    )
  ]
]

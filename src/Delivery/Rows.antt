-- ===== src/Delivery/Rows.antt =====
-- The queries on rows: MAX, MIN, the order, and what they return of a numbered history.
use native.Mathlib.Nat.{le_trans}
use seven_mirror_server.Common.{
  ℕ, zero, suc, ◌+◌, ◌-◌, ◌≤◌, ◌<◌, ◌≡◌, refl, sym, ap, ◌∙◌, subst, ◌⊎◌, inl, inr, Bool, true, not,
  none, some, List, [], ◌∷◌, ◌++◌, map, arith, ltb, ◌==◌, length, take, drop, select, All, All-map,
  drop-all, drop-drop, Option-cases, Bool-cases, lt→ltb, le→ltb,
}
use seven_mirror_server.Common.Bytes.{Bytes}
use seven_mirror_server.Delivery.{
  Row, StoredDelivery, max_id, min_id, insert_by_id, order_by_id, after, stored, deliveries_after,
  has_id,
}

-- A history after its first `k` entries, numbered from `k + 1`.
abbrev pub number : ℕ → List Bytes → List StoredDelivery
number k [] = []
number k (x ∷ xs) = record { id = suc k; envelope = x } ∷ number (suc k) xs

-- Above a mark the rows are the history, numbered, with nothing missing.
abbrev pub Holds : List Bytes → ℕ → List Row → Type 0
Holds log mark rows = map stored (after mark rows) ≡ number mark (drop mark log)

abbrev beyond : ℕ → List StoredDelivery → List StoredDelivery
beyond c = select (λ d. ltb c d.id)

map-after : (c : ℕ) (rows : List Row) → map stored (after c rows) ≡ beyond c (map stored rows)
map-after c [] = refl
map-after c (r ∷ rs) = ground (arith, map-after c rs)

beyond-number_le : (c k : ℕ) (xs : List Bytes) → c ≤ k → beyond c (number k xs) ≡ number k xs
beyond-number_le c k [] h = refl
beyond-number_le c k (x ∷ xs) h = ground (arith, beyond-number_le c (suc k) xs (omega arith))

beyond-number :
    (c k : ℕ) (xs : List Bytes) → k ≤ c → beyond c (number k xs) ≡ number c (drop (c - k) xs)
beyond-number c k [] h = sym (ap (number c) (drop-all (c - k) [] (omega arith)))
beyond-number c k (x ∷ xs) h = elim (Bool-cases (ltb k c)) [
  | inl below ↦
      let fewer : c - k ≡ suc (c - suc k) = ground arith in
      rw (fewer, le→ltb c (suc k) (ground arith)) (beyond-number c (suc k) xs (ground arith))
  | inr above ↦
      let same : c ≡ k = ground arith in
      let none_left : c - k ≡ 0 = omega arith in
      rw (none_left, lt→ltb c (suc k) (omega arith), beyond-number_le c (suc k) xs (omega arith))
        (ap (λ n. number n (x ∷ xs)) (sym same))
]

pub after-after : (c d : ℕ) (rows : List Row) → d ≤ c → after c (after d rows) ≡ after c rows
after-after c d [] h = refl
after-after c d (r ∷ rs) h = ground (arith, after-after c d rs h)

-- The history is held above any higher mark too.
pub Holds-raise :
    (log : List Bytes) (d c : ℕ) (rows : List Row) → d ≤ c → Holds log d rows → Holds log c rows
Holds-raise log d c rows h held =
    let skip : d + (c - d) ≡ c = omega arith in
    ap (map stored) (sym (after-after c d rows h))
    ∙ map-after c (after d rows)
    ∙ ap (beyond c) held
    ∙ beyond-number c d (drop d log) h
    ∙ ap (number c) (drop-drop (c - d) d log)
    ∙ ap (λ n. number c (drop n log)) skip

-- Removing rows below the mark changes nothing above it.
pub after-select :
    (c : ℕ) (p : Row → Bool) (rows : List Row)
    → All (λ r. (p r ≡ true) ⊎ (r.delivery_id ≤ c)) rows
    → after c (select p rows) ≡ after c rows
after-select c p [] h = refl
after-select c p (r ∷ rs) h = ground (arith, after-select c p rs h.1)

pub number-append :
    (k : ℕ) (xs : List Bytes) (x : Bytes)
    → number k (xs ++ x ∷ [])
      ≡ number k xs ++ record { id = suc (k + length xs); envelope = x } ∷ []
number-append k [] x = ground arith
number-append k (y ∷ xs) x = ground (arith, number-append (suc k) xs x)

-- What the rows of a numbered history look like to the sort: each id above the one before.
abbrev pub Ascending : ℕ → List Row → Type 0
Ascending k [] = Unit {0}
Ascending k (r ∷ rs) = (k < r.delivery_id) × Ascending r.delivery_id rs

Ascending-number :
    (k : ℕ) (xs : List Bytes) (rows : List Row) → map stored rows ≡ number k xs → Ascending k rows
Ascending-number k xs [] e = tt
Ascending-number k [] (r ∷ rs) e = cc
Ascending-number k (x ∷ xs) (r ∷ rs) e =
    let head : r.delivery_id ≡ suc k = ground arith in
    let rest : Ascending (suc k) rs = Ascending-number (suc k) xs rs (ground arith) in
    (omega arith, subst (λ n. Ascending n rs) (sym head) rest)

Ascending-mono : (j k : ℕ) (rows : List Row) → j ≤ k → Ascending k rows → Ascending j rows
Ascending-mono j k [] h a = tt
Ascending-mono j k (r ∷ rs) h a = (omega arith, a.1)

-- Removing rows keeps the order, and a larger id goes to the end.
pub Ascending-select :
    (k : ℕ) (p : Row → Bool) (rows : List Row) → Ascending k rows → Ascending k (select p rows)
Ascending-select k p [] a = tt
Ascending-select k p (r ∷ rs) a = elim (Bool-cases (p r)) [
  | inl kept ↦ rw kept (a.0, Ascending-select r.delivery_id p rs a.1)
  | inr gone ↦ rw gone (
      Ascending-mono k r.delivery_id (select p rs) (omega arith)
        (Ascending-select r.delivery_id p rs a.1))
]

pub Ascending-append :
    (k : ℕ) (rows : List Row) (r : Row)
    → Ascending k rows
    → All (λ s. s.delivery_id < r.delivery_id) rows
    → k < r.delivery_id
    → Ascending k (rows ++ r ∷ [])
Ascending-append k [] r a h l = (l, tt)
Ascending-append k (s ∷ rs) r a h l = (a.0, Ascending-append s.delivery_id rs r a.1 h.1 h.0)

-- In an ascending list the smallest id is the first, and only the first row has it.
pub min_id-Ascending :
    (k : ℕ) (r : Row) (rs : List Row) → Ascending k (r ∷ rs) → min_id (r ∷ rs) ≡ some r.delivery_id
unfolding min_id
min_id-Ascending k r [] a = refl
min_id-Ascending k r (s ∷ rs) a = ground (arith, min_id-Ascending r.delivery_id s rs a.1)

others :
    (n k : ℕ) (rows : List Row)
    → n ≤ k
    → Ascending k rows
    → select (λ r. not (r.delivery_id == n)) rows ≡ rows
others n k [] h a = refl
others n k (r ∷ rs) h a = ground (arith, others n r.delivery_id rs (omega arith) a.1)

pub select-Ascending_tail :
    (k : ℕ) (r : Row) (rs : List Row)
    → Ascending k (r ∷ rs)
    → select (λ s. not (s.delivery_id == r.delivery_id)) (r ∷ rs) ≡ rs
select-Ascending_tail k r rs a =
    ground (arith, others r.delivery_id r.delivery_id rs (omega arith) a.1)

insert-Ascending :
    (r : Row) (rows : List Row) → Ascending r.delivery_id rows → insert_by_id r rows ≡ r ∷ rows
unfolding insert_by_id
insert-Ascending r [] h = refl
insert-Ascending r (s ∷ rs) h = ground arith

order-Ascending : (k : ℕ) (rows : List Row) → Ascending k rows → order_by_id rows ≡ rows
unfolding order_by_id
order-Ascending k [] h = refl
order-Ascending k (r ∷ rs) h =
    ap (insert_by_id r) (order-Ascending r.delivery_id rs h.1) ∙ insert-Ascending r rs h.1

map-take : (n : ℕ) (rows : List Row) → map stored (take n rows) ≡ take n (map stored rows)
map-take zero rows = refl
map-take (suc n) [] = refl
map-take (suc n) (r ∷ rs) = ap (◌∷◌ (stored r)) (map-take n rs)

-- A reader at or above the mark gets the next entries of the history, in order.
pub deliveries_after-Holds :
    (log : List Bytes) (c limit : ℕ) (rows : List Row)
    → Holds log c rows
    → deliveries_after c limit rows ≡ take limit (number c (drop c log))
unfolding deliveries_after
deliveries_after-Holds log c limit rows held =
    ap (λ rs. map stored (take limit rs))
      (order-Ascending c (after c rows) (Ascending-number c (drop c log) (after c rows) held))
    ∙ map-take limit (after c rows)
    ∙ ap (take limit) held

max_id-none {ℓ} : (P : Row → Type ℓ) (rows : List Row) → max_id rows ≡ none → All P rows
unfolding max_id
max_id-none P [] e = tt
max_id-none P (r ∷ rs) e = elim (Option-cases (max_id rs)) [ inl empty ↦ cc | inr (m, found) ↦ cc ]

min_id-none {ℓ} : (P : Row → Type ℓ) (rows : List Row) → min_id rows ≡ none → All P rows
unfolding min_id
min_id-none P [] e = tt
min_id-none P (r ∷ rs) e = elim (Option-cases (min_id rs)) [ inl empty ↦ cc | inr (m, found) ↦ cc ]

-- MAX is an upper bound, and there is none only where there are no rows.
pub max_id-bound :
    (rows : List Row) (n : ℕ) → max_id rows ≡ some n → All (λ r. r.delivery_id ≤ n) rows
unfolding max_id
max_id-bound [] n e = tt
max_id-bound (r ∷ rs) n e = elim (Option-cases (max_id rs)) [
  | inl empty ↦ (ground arith, max_id-none (λ s. s.delivery_id ≤ n) rs empty)
  | inr (m, found) ↦
      let more : m ≤ n = ground arith in
      (ground arith, All-map _ _ (λ s h. le_trans h more) rs (max_id-bound rs m found))
]

-- MAX and MIN are ids of rows, so they keep a bound of the ids.
pub max_id-le :
    (bound : ℕ) (rows : List Row) (n : ℕ)
    → All (λ r. r.delivery_id ≤ bound) rows
    → max_id rows ≡ some n
    → n ≤ bound
unfolding max_id
max_id-le bound [] n h e = cc
max_id-le bound (r ∷ rs) n h e = elim (Option-cases (max_id rs)) [
  | inl empty ↦ ground (arith, h.0)
  | inr (m, found) ↦ ground (arith, h.0, max_id-le bound rs m h.1 found)
]

pub min_id-le :
    (bound : ℕ) (rows : List Row) (n : ℕ)
    → All (λ r. r.delivery_id ≤ bound) rows
    → min_id rows ≡ some n
    → n ≤ bound
unfolding min_id
min_id-le bound [] n h e = cc
min_id-le bound (r ∷ rs) n h e = elim (Option-cases (min_id rs)) [
  | inl empty ↦ ground (arith, h.0)
  | inr (m, found) ↦ ground (arith, h.0, min_id-le bound rs m h.1 found)
]

pub min_id_lem :
    (rows : List Row) (n : ℕ)
    → min_id rows ≡ some n
    → All (λ r. n ≤ r.delivery_id) rows × (has_id n rows ≡ true)
unfolding min_id has_id
min_id_lem [] n e = cc
min_id_lem (r ∷ rs) n e = elim (Option-cases (min_id rs)) [
  | inl empty ↦ ((ground arith, min_id-none (λ s. n ≤ s.delivery_id) rs empty), ground arith)
  | inr (m, found) ↦
      let ih : All (λ s. m ≤ s.delivery_id) rs × (has_id m rs ≡ true) = min_id_lem rs m found in
      let less : n ≤ m = ground arith in
      ((ground arith, All-map _ _ (λ s h. le_trans less h) rs ih.0), ground (arith, ih.1))
]

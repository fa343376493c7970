-- ===== src/RateLimit/Bounds.antt =====
-- The limiter's memory and its counters stay bounded.
use Prim.Native.String.{String}
use seven_mirror_server.Common.{
  ℕ, ◌≤◌, ◌<◌, ◌≡◌, not, some, List, [], ◌∷◌, arith, length, All, All-select, length-select-le, leb,
  Option-cases, Bool-cases, inl, inr,
}
use seven_mirror_server.RateLimit.{
  FixedWindow, Entry, lookup, delete, put, sweep, is_over, start, admit_new, admit_again, allow,
  allow_all,
}
use seven_mirror_server.RateLimit.Windows.{length-delete-le, length-delete-lt, All-delete}

-- At most `max_entries` keys are held, and no counter passes `limit`.
pub record IsBounded (l : FixedWindow) : Type 0 where
  pub positive : 1 ≤ l.limit
  pub size : length l.entries ≤ l.max_entries
  pub counters : All (λ p. p.1.attempts ≤ l.limit) l.entries

start-IsBounded :
    (l : FixedWindow) (key : String) (now : ℕ)
    → IsBounded l
    → length l.entries < l.max_entries
    → IsBounded (start l key now)
unfolding put
start-IsBounded l key now v h = record {
  positive = v.positive;
  size = omega (arith, length-delete-le key l.entries);
  counters = (v.positive, All-delete _ key l.entries v.counters);
}

sweep-IsBounded :
    (l : FixedWindow) (now : ℕ)
    → IsBounded l
    → IsBounded (record l { entries = sweep l.window now l.entries })
unfolding sweep
sweep-IsBounded l now v = record {
  positive = v.positive;
  size = omega (arith, v.size, length-select-le (λ p. not (is_over l.window now p.1)) l.entries);
  counters = All-select _ (λ p. not (is_over l.window now p.1)) l.entries v.counters;
}

admit_new-IsBounded :
    (l : FixedWindow) (key : String) (now : ℕ) → IsBounded l → IsBounded (admit_new l key now).1
unfolding admit_new
admit_new-IsBounded l key now v =
    let swept : FixedWindow = record l { entries = sweep l.window now l.entries } in
    ground (
      arith,
      start-IsBounded l key now v,
      sweep-IsBounded l now v,
      start-IsBounded swept key now (sweep-IsBounded l now v),
    )

admit_again-IsBounded :
    (l : FixedWindow) (key : String) (e : Entry)
    → IsBounded l
    → lookup key l.entries ≡ some e
    → IsBounded (admit_again l key e).1
unfolding admit_again put
admit_again-IsBounded l key e v held = elim (Bool-cases (leb l.limit e.attempts)) [
  | inl full ↦ rw (full) v
  | inr running ↦ rw (running) (record {
    positive = v.positive;
    size = omega (arith, v.size, length-delete-lt key e l.entries held);
    counters = (ground (arith, running), All-delete _ key l.entries v.counters);
  })
]

delete-IsBounded :
    (l : FixedWindow) (key : String)
    → IsBounded l
    → IsBounded (record l { entries = delete key l.entries })
delete-IsBounded l key v = record {
  positive = v.positive;
  size = omega (arith, v.size, length-delete-le key l.entries);
  counters = All-delete _ key l.entries v.counters;
}

pub allow-IsBounded :
    (l : FixedWindow) (key : String) (now : ℕ) → IsBounded l → IsBounded (allow l key now).1
unfolding allow
allow-IsBounded l key now v = elim (Option-cases (lookup key l.entries)) [
  | inl absent ↦ rw (absent, allow) (admit_new-IsBounded l key now v)
  | inr (e, held) ↦ elim (Bool-cases (is_over l.window now e)) [
    | inl over ↦ rw (held, allow, over) (admit_new-IsBounded _ key now (delete-IsBounded l key v))
    | inr running ↦ rw (held, allow, running) (admit_again-IsBounded l key e v held)
  ]
]

-- From a bounded limiter, whatever requests follow, the limiter holds at most `max_entries` keys
-- and no counter passes `limit`.
pub allow_all-IsBounded :
    (l : FixedWindow) (rs : List (String × ℕ)) → IsBounded l → IsBounded (allow_all l rs)
unfolding allow_all
allow_all-IsBounded l [] v = v
allow_all-IsBounded l ((key, now) ∷ rs) v =
    allow_all-IsBounded (allow l key now).1 rs (allow-IsBounded l key now v)

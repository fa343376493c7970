-- ===== src/RateLimit/Quota.antt =====
-- Within a window a key is admitted `limit` times at most.
use Prim.Native.String.{String}
use text.Mathlib.Text.{◌==◌}
use text.Mathlib.TextEquality.{eq_iff}
use seven_mirror_server.Common.{
  ℕ, ◌+◌, ◌-◌, ◌≡◌, refl, Bool, false, some, List, [], ◌∷◌, arith, All, Option-cases, Bool-cases,
  inl, inr, if◌then◌else◌, ◌&&◌, min, ltb,
}
use seven_mirror_server.RateLimit.{
  FixedWindow, Entry, lookup, delete, sweep, is_over, start, admit_new, admit_again, allow,
  admitted,
}
use seven_mirror_server.RateLimit.Windows.{lookup-delete, lookup-put, lookup-sweep}

-- How often the key was let through.
unfoldable pub passes : String → List (String × Bool) → ℕ
passes key [] = 0
passes key ((k, answer) ∷ rs) = (if (k == key) && answer then 1 else 0) + passes key rs

-- How often it asked.
unfoldable pub asked : String → List (String × ℕ) → ℕ
asked key [] = 0
asked key ((k, now) ∷ rs) = (if k == key then 1 else 0) + asked key rs

-- The limiter keeps its limit and window.
allow-settings :
    (l : FixedWindow) (key : String) (now : ℕ)
    → ((allow l key now).1.limit ≡ l.limit) × ((allow l key now).1.window ≡ l.window)
unfolding allow admit_new admit_again
allow-settings l key now = ground (arith, Option-cases (lookup key l.entries))

start-other :
    (l : FixedWindow) (j k : String) (now : ℕ)
    → (j == k) ≡ false
    → lookup k (start l j now).entries ≡ lookup k l.entries
start-other l j k now other =
    rw (lookup-put j k (record { started_at = now; attempts = 1 }) l.entries, other) refl

admit_new-other :
    (l : FixedWindow) (j k : String) (e : Entry) (now : ℕ)
    → (j == k) ≡ false
    → lookup k l.entries ≡ some e
    → is_over l.window now e ≡ false
    → lookup k (admit_new l j now).1.entries ≡ some e
unfolding admit_new
admit_new-other l j k e now other held running =
    let swept : FixedWindow = record l { entries = sweep l.window now l.entries } in
    ground (
      arith,
      start-other l j k now other,
      start-other swept j k now other,
      lookup-sweep l.window now k e l.entries held running,
    )

-- A request of another key leaves a running window alone.
allow-other :
    (l : FixedWindow) (j k : String) (e : Entry) (now : ℕ)
    → (j == k) ≡ false
    → lookup k l.entries ≡ some e
    → is_over l.window now e ≡ false
    → lookup k (allow l j now).1.entries ≡ some e
unfolding allow admit_again
allow-other l j k e now other held running = elim (Option-cases (lookup j l.entries)) [
  | inl absent ↦ rw (absent, allow) (admit_new-other l j k e now other held running)
  | inr (f, found) ↦
      let kept : lookup k (delete j l.entries) ≡ some e =
        rw (lookup-delete j k l.entries, other) held in
      elim (Bool-cases (is_over l.window now f)) [
        | inl over ↦
            rw (found, allow, over)
              (admit_new-other (record l { entries = delete j l.entries }) j k e now other kept
                running)
        | inr still ↦
            rw (found, allow, still)
              (ground
                (arith, held, lookup-put j k (record f { attempts = f.attempts + 1 }) l.entries))
      ]
]

-- A request of a key whose window runs is counted, and refused at the limit.
allow-same :
    (l : FixedWindow) (k : String) (e : Entry) (now : ℕ)
    → lookup k l.entries ≡ some e
    → is_over l.window now e ≡ false
    → ((allow l k now).0 ≡ ltb e.attempts l.limit)
      × (lookup k (allow l k now).1.entries
          ≡ some (if ltb e.attempts l.limit then record e { attempts = e.attempts + 1 } else e))
unfolding allow admit_again
allow-same l k e now held running =
    rw (held, allow, running)
      (ground (
        arith,
        held,
        eq_iff k k,
        lookup-put k k (record e { attempts = e.attempts + 1 }) l.entries,
      ))

-- While the window of a key runs, whatever else is asked in between, exactly as many of its
-- requests pass as its entry leaves below the limit.
pub admitted-quota :
    (l : FixedWindow) (k : String) (e : Entry) (rs : List (String × ℕ))
    → lookup k l.entries ≡ some e
    → All (λ r. is_over l.window r.1 e ≡ false) rs
    → passes k (admitted l rs) ≡ min (asked k rs) (l.limit - e.attempts)
unfolding passes asked admitted
admitted-quota l k e [] held running = omega arith
admitted-quota l k e ((j, now) ∷ rs) held running = elim (Bool-cases (j == k)) [
  | inl same ↦
      let one : j ≡ k = ground (arith, same, eq_iff j k) in
      let (answer, next) = allow-same l j e now (rw (one) held) running.0 in
      elim (Bool-cases (ltb e.attempts l.limit)) [
        | inl below ↦
            let counted : Entry = record e { attempts = e.attempts + 1 } in
            let rest : passes k (admitted (allow l j now).1 rs)
                ≡ min (asked k rs) ((allow l j now).1.limit - counted.attempts) =
              admitted-quota (allow l j now).1 k counted rs (ground (arith, one, next, below))
                (rw ((allow-settings l j now).1) running.1) in
            ground (arith, rest, same, answer, below, (allow-settings l j now).0)
        | inr full ↦
            let rest : passes k (admitted (allow l j now).1 rs)
                ≡ min (asked k rs) ((allow l j now).1.limit - e.attempts) =
              admitted-quota (allow l j now).1 k e rs (ground (arith, one, next, full))
                (rw ((allow-settings l j now).1) running.1) in
            ground (arith, rest, same, answer, full, (allow-settings l j now).0)
      ]
  | inr other ↦
      let rest : passes k (admitted (allow l j now).1 rs)
          ≡ min (asked k rs) ((allow l j now).1.limit - e.attempts) =
        admitted-quota (allow l j now).1 k e rs (allow-other l j k e now other held running.0)
          (rw ((allow-settings l j now).1) running.1) in
      ground (arith, rest, other, (allow-settings l j now).0)
]

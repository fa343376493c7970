-- ===== src/RateLimit.antt =====
-- internal/ratelimit/fixed_window.go: the fixed-window limiter in front of relay authentication and
-- of the HTTP API. The map is an association list without its order, which the code never uses.
-- Instants and durations are nanoseconds, limits that are not positive are 0. A time before the
-- start of a window gives 0 where the source has a negative duration, and neither reaches the
-- window, which is positive.
pub mod Windows
pub mod Bounds
pub mod Quota
pub mod Examples
use Prim.Native.String.{String}
use text.Mathlib.Text.{◌==◌}
use seven_mirror_server.Common.{
  ℕ, ◌+◌, ◌-◌, Bool, true, false, ◌||◌, not, Option, none, some, List, [], ◌∷◌, ltb, leb, length,
  select, if◌then◌else◌,
}
use seven_mirror_server.Common.Result.{Result, ok, err}

pub record Entry : Type 0 where
  pub started_at : ℕ
  pub attempts : ℕ

abbrev pub Entries : Type 0
Entries = List (String × Entry)

pub record FixedWindow : Type 0 where
  pub entries : Entries
  pub limit : ℕ
  pub max_entries : ℕ
  pub window : ℕ

pub data Error : Type 0 where
  limits_not_positive : Error

unfoldable pub new_fixed_window : ℕ → ℕ → ℕ → Result Error FixedWindow
new_fixed_window limit max_entries window =
    if ltb limit 1 || ltb max_entries 1 || ltb window 1
    then err limits_not_positive
    else ok (record { entries = []; limit = limit; max_entries = max_entries; window = window })

-- `entries[key]`
unfoldable pub lookup : String → Entries → Option Entry
lookup key [] = none
lookup key ((k, e) ∷ es) = if k == key then some e else lookup key es

-- `delete(entries, key)`
unfoldable pub delete : String → Entries → Entries
delete key [] = []
delete key ((k, e) ∷ es) = let rest = delete key es in if k == key then rest else (k, e) ∷ rest

-- `entries[key] = e`
unfoldable pub put : String → Entry → Entries → Entries
put key e es = (key, e) ∷ delete key es

abbrev pub is_over : ℕ → ℕ → Entry → Bool
is_over window now e = leb window (now - e.started_at)

-- The loop that deletes every entry whose window is over.
unfoldable pub sweep : ℕ → ℕ → Entries → Entries
sweep window now = select (λ p. not (is_over window now p.1))

abbrev pub start : FixedWindow → String → ℕ → FixedWindow
start l key now = record l {
  entries = put key (record { started_at = now; attempts = 1 }) l.entries;
}

-- The branch of a key without an entry.
unfoldable pub admit_new : FixedWindow → String → ℕ → Bool × FixedWindow
admit_new l key now =
    if leb l.max_entries (length l.entries)
    then (let swept = record l { entries = sweep l.window now l.entries } in
        if leb l.max_entries (length swept.entries)
        then (false, swept)
        else (true, start swept key now))
    else (true, start l key now)

-- The branch of a key whose window is open.
unfoldable pub admit_again : FixedWindow → String → Entry → Bool × FixedWindow
admit_again l key current = if leb l.limit current.attempts then (false, l) else (
  true,
  record l { entries = put key (record current { attempts = current.attempts + 1 }) l.entries },
)

unfoldable pub allow : FixedWindow → String → ℕ → Bool × FixedWindow
allow l key now = elim (lookup key l.entries) [
  | none ↦ admit_new l key now
  | some current ↦
      if is_over l.window now current
      then admit_new (record l { entries = delete key l.entries }) key now
      else admit_again l key current
]

-- The callers' requests, one after the other under the mutex.
unfoldable pub allow_all : FixedWindow → List (String × ℕ) → FixedWindow
allow_all l [] = l
allow_all l ((key, now) ∷ rs) = allow_all (allow l key now).1 rs

-- The callers' answers, in the order of their requests.
unfoldable pub admitted : FixedWindow → List (String × ℕ) → List (String × Bool)
admitted l [] = []
admitted l ((key, now) ∷ rs) = (key, (allow l key now).0) ∷ admitted (allow l key now).1 rs

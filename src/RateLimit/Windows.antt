-- ===== src/RateLimit/Windows.antt =====
-- The map of the limiter.
use Prim.Native.String.{String}
use text.Mathlib.Text.{◌==◌}
use text.Mathlib.TextEquality.{eq_iff}
use seven_mirror_server.Common.{
  ℕ, ◌≤◌, ◌<◌, ◌≡◌, false, none, some, [], ◌∷◌, arith, length, All, if◌then◌else◌,
}
use seven_mirror_server.RateLimit.{Entry, Entries, lookup, delete, put, sweep, is_over}

pub lookup-delete :
    (j k : String) (es : Entries) → lookup k (delete j es) ≡ (if j == k then none else lookup k es)
unfolding lookup delete
lookup-delete j k [] = ground arith
lookup-delete j k ((i, e) ∷ es) =
    ground (arith, eq_iff i j, eq_iff i k, eq_iff j k, lookup-delete j k es)

pub lookup-put :
    (j k : String) (e : Entry) (es : Entries)
    → lookup k (put j e es) ≡ (if j == k then some e else lookup k es)
unfolding lookup put
lookup-put j k e es = ground (arith, lookup-delete j k es)

-- An open window is not swept.
pub lookup-sweep :
    (window now : ℕ) (k : String) (e : Entry) (es : Entries)
    → lookup k es ≡ some e
    → is_over window now e ≡ false
    → lookup k (sweep window now es) ≡ some e
unfolding lookup sweep
lookup-sweep window now k e [] h o = cc
lookup-sweep window now k e ((i, f) ∷ es) h o = ground (arith, lookup-sweep window now k e es)

pub length-delete-le : (k : String) (es : Entries) → length (delete k es) ≤ length es
unfolding delete
length-delete-le k [] = omega arith
length-delete-le k ((i, e) ∷ es) = ground (arith, length-delete-le k es)

pub length-delete-lt :
    (k : String) (e : Entry) (es : Entries)
    → lookup k es ≡ some e
    → length (delete k es) < length es
unfolding lookup delete
length-delete-lt k e [] h = cc
length-delete-lt k e ((i, f) ∷ es) h =
    ground (arith, length-delete-le k es, length-delete-lt k e es)

pub All-delete {ℓ} :
    (P : String × Entry → Type ℓ) (k : String) (es : Entries) → All P es → All P (delete k es)
unfolding delete
All-delete P k [] h = tt
All-delete P k ((i, e) ∷ es) h = ground (arith, h.0, All-delete P k es h.1)

pub All-lookup :
    (n : ℕ) (k : String) (e : Entry) (es : Entries)
    → All (λ p. p.1.attempts ≤ n) es
    → lookup k es ≡ some e
    → e.attempts ≤ n
unfolding lookup
All-lookup n k e [] h f = cc
All-lookup n k e ((i, d) ∷ es) h f = ground (arith, h.0, All-lookup n k e es h.1)

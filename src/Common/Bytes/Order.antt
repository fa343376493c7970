-- ===== src/Common/Bytes/Order.antt =====
-- The order of byte strings, and what a sorted list of them has: no two equal.
use mathlib.Core.Path.{◌≡◌, refl, sym, ap, ◌∙◌}
use mathlib.Core.Logic.{◌≢◌}
use mathlib.Core.Bool.{Bool, true, false, ◌&&◌, ◌||◌}
use mathlib.Core.Option.{Option, none, some}
use mathlib.Core.List.{List, [], ◌∷◌}
use native.Mathlib.Omega.{arith}
use seven_mirror_server.Common.Tests.{ltb, ◌==◌}
use seven_mirror_server.Common.Lists.{All, All-map}
use seven_mirror_server.Common.Bytes.{Bytes}

-- `bytes.Compare(a, b) < 0`
unfoldable pub less : Bytes → Bytes → Bool
less a [] = false
less [] (y ∷ ys) = true
less (x ∷ xs) (y ∷ ys) = ltb x y || x == y && less xs ys

-- A key that follows the one before, if there is one.
abbrev pub follows : Option Bytes → Bytes → Bool
follows none key = true
follows (some previous) key = less previous key

less_irrefl : (a : Bytes) → less a a ≡ false
unfolding less
less_irrefl [] = refl
less_irrefl (x ∷ xs) = ground (arith, less_irrefl xs)

less_trans : (a b c : Bytes) → less a b ≡ true → less b c ≡ true → less a c ≡ true
unfolding less
less_trans a [] c h k = ground arith
less_trans a (y ∷ ys) [] h k = ground arith
less_trans [] (y ∷ ys) (z ∷ zs) h k = refl
less_trans (x ∷ xs) (y ∷ ys) (z ∷ zs) h k = ground (arith, less_trans xs ys zs)

-- Each follows the one before.
abbrev pub IsChain : Option Bytes → List Bytes → Type 0
IsChain previous [] = Unit {0}
IsChain previous (x ∷ xs) = (follows previous x ≡ true) × IsChain (some x) xs

-- No two are equal.
abbrev pub AreApart : List Bytes → Type 0
AreApart [] = Unit {0}
AreApart (x ∷ xs) = All (λ y. x ≢ y) xs × AreApart xs

IsChain-above :
    (x y : Bytes) (xs : List Bytes)
    → less x y ≡ true
    → IsChain (some y) xs
    → All (λ z. less x z ≡ true) (y ∷ xs)
IsChain-above x y [] h v = (h, tt)
IsChain-above x y (z ∷ xs) h (first, rest) =
    (h, IsChain-above x z xs (less_trans x y z h first) rest)

less-neq : (x y : Bytes) → less x y ≡ true → x ≢ y
less-neq x y h e = ground (arith, ap (less x) (sym e) ∙ less_irrefl x)

IsChain-All : (x : Bytes) (xs : List Bytes) → IsChain (some x) xs → All (λ y. x ≢ y) xs
IsChain-All x [] v = tt
IsChain-All x (y ∷ xs) (first, rest) =
    All-map (λ z. less x z ≡ true) (λ z. x ≢ z) (less-neq x) (y ∷ xs)
      (IsChain-above x y xs first rest)

pub IsChain-AreApart :
    (previous : Option Bytes) (xs : List Bytes) → IsChain previous xs → AreApart xs
IsChain-AreApart previous [] v = tt
IsChain-AreApart previous (x ∷ xs) (first, rest) =
    (IsChain-All x xs rest, IsChain-AreApart (some x) xs rest)

-- ===== src/Common/Bytes.antt =====
-- Byte slices as lists of numbers below 256: the parts of `copy`, slicing, `bytes.Equal` and
-- `encoding/binary` that the codecs use.
pub mod Layout
pub mod BigEndian
pub mod Order
use Prim.Native.Nat.{ℕ, zero, suc, ◌+◌, ◌-◌, ◌<◌}
use mathlib.Core.Path.{◌≡◌, refl}
use mathlib.Core.Logic.{◌↔◌}
use mathlib.Core.Bool.{Bool, true, false, ◌&&◌}
use mathlib.Core.List.{List, [], ◌∷◌, ◌++◌}
use native.Mathlib.Omega.{arith}
use seven_mirror_server.Common.Tests.{◌==◌, ==_iff}
use seven_mirror_server.Common.Lists.{All, take, drop, replicate, length}

abbrev pub Bytes : Type 0
Bytes = List ℕ

abbrev pub IsByte : ℕ → Type 0
IsByte b = b < 256

-- `[n]byte`: an array of a fixed size.
pub record IsArray (n : ℕ) (bs : Bytes) : Type 0 where
  pub size : length bs ≡ n
  pub bytes : All IsByte bs

-- `bs[lo:hi]`
unfoldable pub slice : ℕ → ℕ → Bytes → Bytes
slice lo hi bs = take (hi - lo) (drop lo bs)

-- `make([]byte, n)`
unfoldable pub make : ℕ → Bytes
make n = replicate n 0

-- `copy(dst[lo:], src)`, where `src` fits.
unfoldable pub copy_at : ℕ → Bytes → Bytes → Bytes
copy_at lo src dst = take lo dst ++ (src ++ drop (lo + length src) dst)

-- `bytes.Equal(a, b)`
unfoldable pub equal : Bytes → Bytes → Bool
equal [] [] = true
equal [] (b ∷ bs) = false
equal (a ∷ as') [] = false
equal (a ∷ as') (b ∷ bs) = a == b && equal as' bs

-- `bs[i]`, where `i` is in range.
abbrev pub byte_at : ℕ → Bytes → ℕ
byte_at i [] = 0
byte_at zero (b ∷ bs) = b
byte_at (suc i) (b ∷ bs) = byte_at i bs

unfoldable pub all_zero : Bytes → Bool
all_zero [] = true
all_zero (b ∷ bs) = b == 0 && all_zero bs

pub equal_iff : (as' bs : Bytes) → (equal as' bs ≡ true) ↔ (as' ≡ bs)
unfolding equal
equal_iff [] [] = ground arith
equal_iff [] (b ∷ bs) = ground arith
equal_iff (a ∷ as') [] = ground arith
equal_iff (a ∷ as') (b ∷ bs) = ground (arith, ==_iff a b, equal_iff as' bs)

pub equal_refl : (bs : Bytes) → equal bs bs ≡ true
equal_refl bs = (equal_iff bs bs).1 refl

-- ===== src/Common/Bytes/BigEndian.antt =====
-- `binary.BigEndian`: `PutUint16`, `PutUint32`, `PutUint64` and their inverses, at every width.
use mathlib.Core.List.{reverse, reverse-reverse}
use native.Mathlib.Nat.{pow-suc}
use Prim.Native.Nat.{ℕ, zero, suc, ◌+◌, ◌*◌, ◌/◌, ◌%◌, ◌^◌, ◌<◌}
use mathlib.Core.Path.{◌≡◌, refl, ap, ◌∙◌}
use mathlib.Core.List.{[], ◌∷◌}
use native.Mathlib.Omega.{arith}
use seven_mirror_server.Common.Lists.{All, length, length-reverse, All-append}
use mathlib.Core.List.{reverse-cons}
use seven_mirror_server.Common.Bytes.{Bytes, IsByte}

-- The low `k` bytes of a number, the lowest first.
digits : ℕ → ℕ → Bytes
digits zero v = []
digits (suc k) v = (v % 256) ∷ digits k (v / 256)

value : Bytes → ℕ
value [] = 0
value (b ∷ bs) = b + 256 * value bs

-- `PutUint…` of `k` bytes: the highest first.
unfoldable pub put : ℕ → ℕ → Bytes
unfolding digits
put k v = reverse (digits k v)

-- `Uint…` of a slice.
unfoldable pub get : Bytes → ℕ
unfolding value
get bs = value (reverse bs)

length-digits : (k v : ℕ) → length (digits k v) ≡ k
unfolding digits
length-digits zero v = refl
length-digits (suc k) v = ap suc (length-digits k (v / 256))

digits-IsByte : (k v : ℕ) → All IsByte (digits k v)
unfolding digits
digits-IsByte zero v = tt
digits-IsByte (suc k) v = (omega arith, digits-IsByte k (v / 256))

value-digits : (k v : ℕ) → v < 256 ^ k → value (digits k v) ≡ v
unfolding digits value
value-digits zero v h = omega arith
value-digits (suc k) v h =
    let below : v < 256 ^ k * 256 = rw (pow-suc 256 k) at h in
    omega (arith, value-digits k (v / 256) (omega arith))

digits-value : (bs : Bytes) → All IsByte bs → digits (length bs) (value bs) ≡ bs
unfolding digits value
digits-value [] h = refl
digits-value (b ∷ bs) h =
    let low : (b + 256 * value bs) % 256 ≡ b = omega arith in
    let high : (b + 256 * value bs) / 256 ≡ value bs = omega arith in
    rw (low, high) (ap (◌∷◌ b) (digits-value bs h.1))

value-lt : (bs : Bytes) → All IsByte bs → value bs < 256 ^ length bs
unfolding value
value-lt [] h = omega arith
value-lt (b ∷ bs) h = rw pow-suc (omega (arith, value-lt bs h.1))

reverse-IsByte : (bs : Bytes) → All IsByte bs → All IsByte (reverse bs)
reverse-IsByte [] h = tt
reverse-IsByte (b ∷ bs) h =
    rw reverse-cons (All-append IsByte (reverse bs) (b ∷ []) (reverse-IsByte bs h.1) (h.0, tt))

pub length-put : (k v : ℕ) → length (put k v) ≡ k
unfolding put
length-put k v = length-reverse (digits k v) ∙ length-digits k v

pub put-IsByte : (k v : ℕ) → All IsByte (put k v)
unfolding put
put-IsByte k v = reverse-IsByte (digits k v) (digits-IsByte k v)

-- Reading back what was written.
pub get-put : (k v : ℕ) → v < 256 ^ k → get (put k v) ≡ v
unfolding get put
get-put k v h = rw reverse-reverse (value-digits k v h)

-- Writing back what was read.
pub put-get : (k : ℕ) (bs : Bytes) → length bs ≡ k → All IsByte bs → put k (get bs) ≡ bs
unfolding get put
put-get k bs e h =
    let size : length (reverse bs) ≡ k = length-reverse bs ∙ e in
    rw (← size) (ap reverse (digits-value (reverse bs) (reverse-IsByte bs h)) ∙ reverse-reverse bs)

pub get-lt : (k : ℕ) (bs : Bytes) → length bs ≡ k → All IsByte bs → get bs < 256 ^ k
unfolding get
get-lt k bs e h =
    let size : length (reverse bs) ≡ k = length-reverse bs ∙ e in
    rw (← size) (value-lt (reverse bs) (reverse-IsByte bs h))

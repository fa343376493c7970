-- ===== src/Common/Bytes/Layout.antt =====
-- Fixed layouts: adjacent fields written into a buffer by `copy` and read back by slicing.
use Prim.Native.Nat.{ℕ, zero, suc, ◌+◌, ◌-◌, ◌≤◌}
use native.Mathlib.Nat.{sub-zero}
use mathlib.Core.Path.{◌≡◌, refl, ap, ap₂, sym, subst, ◌∙◌}
use mathlib.Core.List.{List, [], ◌∷◌, ◌++◌, append_assoc}
use native.Mathlib.Omega.{arith}
use seven_mirror_server.Common.Lists.{
  All, length, take, drop, replicate, length-append, take-append, drop-append, take-append-drop,
  drop-drop, length-drop, length-take, All-take, All-drop, drop-all,
}
use seven_mirror_server.Common.Bytes.{Bytes, IsByte, slice, make, copy_at}

-- The bytes of `encoded[lo:hi]`.
pub record Field : Type 0 where
  pub lo : ℕ
  pub hi : ℕ
  pub content : Bytes

abbrev pub field : ℕ → ℕ → Bytes → Field
field lo hi content = record { lo = lo; hi = hi; content = content }

-- `copy(encoded[lo:hi], content)` for each field in turn.
unfoldable pub write_all : List Field → Bytes → Bytes
write_all [] buffer = buffer
write_all (f ∷ fs) buffer = write_all fs (copy_at f.lo f.content buffer)

-- Each field begins where the one before it ends, and has the size of its place.
abbrev pub Adjacent : ℕ → List Field → ℕ → Type 0
Adjacent lo [] hi = lo ≡ hi
Adjacent lo (f ∷ fs) hi = (f.lo ≡ lo) × (f.lo + length f.content ≡ f.hi) × Adjacent f.hi fs hi

-- Every place of a buffer holds its field.
abbrev pub Reads : Bytes → List Field → Type 0
Reads bs [] = Unit {0}
Reads bs (f ∷ fs) = (slice f.lo f.hi bs ≡ f.content) × Reads bs fs

join : List Field → Bytes
join [] = []
join (f ∷ fs) = f.content ++ join fs

drop-replicate : (m n : ℕ) → drop m (replicate {A = ℕ} n 0) ≡ replicate (n - m) 0
drop-replicate zero n = rw sub-zero
drop-replicate (suc m) zero = let none_left : 0 - suc m ≡ 0 = omega arith in rw none_left
drop-replicate (suc m) (suc n) =
    let fewer : suc n - suc m ≡ n - m = omega arith in rw fewer (drop-replicate m n)

copy_at-make :
    (pre src : Bytes) (n : ℕ)
    → copy_at (length pre) src (pre ++ make n) ≡ (pre ++ src) ++ make (n - length src)
unfolding copy_at make
copy_at-make pre src n =
    rw
      (
        take-append (length pre) pre (replicate n 0) refl,
        ← drop-drop (length src) (length pre) (pre ++ replicate n 0),
        drop-append (length pre) pre (replicate n 0) refl,
        drop-replicate (length src) n,
      )
      (sym (append_assoc pre src (replicate (n - length src) 0)))

Adjacent-next :
    (pre : Bytes) (f : Field) (fs : List Field) (hi : ℕ)
    → Adjacent (length pre) (f ∷ fs) hi
    → Adjacent (length (pre ++ f.content)) fs hi
Adjacent-next pre f fs hi h =
    subst (λ n. Adjacent n fs hi) (omega (arith, length-append pre f.content)) h.2

write_all-append :
    (pre : Bytes) (fs : List Field) (hi : ℕ)
    → Adjacent (length pre) fs hi
    → write_all fs (pre ++ make (hi - length pre)) ≡ pre ++ join fs
unfolding write_all join make
write_all-append pre [] hi h = let full : hi - length pre ≡ 0 = omega arith in rw full
write_all-append pre (f ∷ fs) hi h =
    let width : hi - length pre - length f.content ≡ hi - length (pre ++ f.content) =
      omega (arith, length-append pre f.content) in
    ap (λ o. write_all fs (copy_at o f.content (pre ++ make (hi - length pre)))) h.0
    ∙ ap (write_all fs) (copy_at-make pre f.content (hi - length pre))
    ∙ ap (λ n. write_all fs ((pre ++ f.content) ++ make n)) width
    ∙ write_all-append (pre ++ f.content) fs hi (Adjacent-next pre f fs hi h)
    ∙ append_assoc pre f.content (join fs)

-- The writes fill the buffer with the fields in turn.
write_all-join : (fs : List Field) (n : ℕ) → Adjacent 0 fs n → write_all fs (make n) ≡ join fs
write_all-join fs n h = rw sub-zero at (write_all-append [] fs n h)

slice-append :
    (lo hi : ℕ) (pre field post : Bytes)
    → length pre ≡ lo
    → lo + length field ≡ hi
    → slice lo hi (pre ++ (field ++ post)) ≡ field
unfolding slice
slice-append lo hi pre field post p q =
    rw (drop-append lo pre (field ++ post) p) (take-append (hi - lo) field post (omega arith))

Reads-append :
    (pre : Bytes) (fs : List Field) (hi : ℕ)
    → Adjacent (length pre) fs hi
    → Reads (pre ++ join fs) fs
unfolding join
Reads-append pre [] hi h = tt
Reads-append pre (f ∷ fs) hi h = (
  slice-append f.lo f.hi pre f.content (join fs) (omega arith) h.1,
  subst (λ bs. Reads bs fs) (append_assoc pre f.content (join fs))
      (Reads-append (pre ++ f.content) fs hi (Adjacent-next pre f fs hi h)),
)

-- What was written is read back.
pub Reads-write_all : (fs : List Field) (n : ℕ) → Adjacent 0 fs n → Reads (write_all fs (make n)) fs
Reads-write_all fs n h = rw (write_all-join fs n h) (Reads-append [] fs n h)

slice-append-drop : (lo hi : ℕ) (bs : Bytes) → lo ≤ hi → slice lo hi bs ++ drop hi bs ≡ drop lo bs
unfolding slice
slice-append-drop lo hi bs h =
    let split : lo + (hi - lo) ≡ hi = omega arith in
    ap (λ n. take (hi - lo) (drop lo bs) ++ drop n bs) (sym split)
    ∙ ap (λ ys. take (hi - lo) (drop lo bs) ++ ys) (sym (drop-drop (hi - lo) lo bs))
    ∙ take-append-drop (hi - lo) (drop lo bs)

join-drop :
    (bs : Bytes) (lo : ℕ) (fs : List Field)
    → Adjacent lo fs (length bs)
    → Reads bs fs
    → join fs ≡ drop lo bs
unfolding join
join-drop bs lo [] h r = sym (drop-all lo bs (omega arith))
join-drop bs lo (f ∷ fs) h r =
    ap₂ ◌++◌ (sym r.0) (join-drop bs f.hi fs h.2 r.1)
    ∙ slice-append-drop f.lo f.hi bs (omega arith)
    ∙ ap (λ n. drop n bs) h.0

-- A buffer of the right size that reads as the fields is the one that the writes make.
pub write_all-Reads :
    (bs : Bytes) (fs : List Field) (n : ℕ)
    → length bs ≡ n
    → Adjacent 0 fs n
    → Reads bs fs
    → write_all fs (make n) ≡ bs
write_all-Reads bs fs n e h r = write_all-join fs n h ∙ join-drop bs 0 fs (rw e h) r

length-join : (lo : ℕ) (fs : List Field) (hi : ℕ) → Adjacent lo fs hi → lo + length (join fs) ≡ hi
unfolding join
length-join lo [] hi h = omega arith
length-join lo (f ∷ fs) hi h =
    omega (arith, length-append f.content (join fs), length-join f.hi fs hi h.2)

pub length-write_all :
    (fs : List Field) (n : ℕ) → Adjacent 0 fs n → length (write_all fs (make n)) ≡ n
length-write_all fs n h = rw (write_all-join fs n h) (omega (arith, length-join 0 fs n h))

pub length-slice :
    (lo hi : ℕ) (bs : Bytes) → lo ≤ hi → hi ≤ length bs → length (slice lo hi bs) ≡ hi - lo
unfolding slice
length-slice lo hi bs p q = omega (arith, length-take (hi - lo) (drop lo bs), length-drop lo bs)

pub slice-IsByte : (lo hi : ℕ) (bs : Bytes) → All IsByte bs → All IsByte (slice lo hi bs)
unfolding slice
slice-IsByte lo hi bs h = All-take IsByte (hi - lo) (drop lo bs) (All-drop IsByte lo bs h)

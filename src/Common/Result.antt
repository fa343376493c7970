-- ===== src/Common/Result.antt =====
-- Go's `(value, error)` pairs: a value, or the error that an early return hands back.
use mathlib.Core.Path.{◌≡◌, refl}
use mathlib.Core.Logic.{◌⊎◌, inl, inr}
use mathlib.Core.Bool.{Bool, true, false}

pub data Result {ℓ κ} (E : Type ℓ) (A : Type κ) : Type (ℓ ⊔ κ) where
  ok : A → Result E A
  err : E → Result E A

-- The rest of a function, after a call whose error is handed back.
abbrev pub then_do {ε ℓ κ} :
    {B : Type κ} {E : Type ε} {A : Type ℓ} → (A → Result E B) → Result E A → Result E B
then_do rest (err e) = err e
then_do rest (ok a) = rest a

infixl 5 ◌>>=◌ ◌>>◌
abbrev pub ◌>>=◌ {ε ℓ κ} :
    {B : Type κ} {E : Type ε} {A : Type ℓ} → Result E A → (A → Result E B) → Result E B
call >>= rest = then_do rest call

abbrev pub ◌>>◌ {ε ℓ κ} :
    {B : Type κ} {E : Type ε} {A : Type ℓ} → Result E A → Result E B → Result E B
call >> rest = then_do (λ _. rest) call

-- `if test { return err }`
abbrev pub refuse_if {ε} : {E : Type ε} → Bool → E → Result E (Unit {0})
refuse_if true e = err e
refuse_if false e = ok tt

-- `fmt.Errorf("…: %w", err)`
abbrev pub wrap_error {ε φ ℓ} :
    {E : Type ε} {F : Type φ} {A : Type ℓ} → (E → F) → Result E A → Result F A
wrap_error f (ok a) = ok a
wrap_error f (err e) = err (f e)

-- A function that returned a value has passed its first step, and so has the rest.
pub bind-eq-ok {ε ℓ κ} :
    {B : Type κ} {E : Type ε} {A : Type ℓ} (call : Result E A) (rest : A → Result E B) {b : B}
    → then_do rest call ≡ ok b
    → (a : A) × (call ≡ ok a) × (rest a ≡ ok b)
bind-eq-ok (err e) rest returned = cc
bind-eq-ok (ok a) rest returned = (a, refl, returned)

pub Result-cases {ε ℓ} :
    {E : Type ε} {A : Type ℓ} (m : Result E A) → ((a : A) × (m ≡ ok a)) ⊎ ((e : E) × (m ≡ err e))
Result-cases (ok a) = inl (a, refl)
Result-cases (err e) = inr (e, refl)

-- A wrapped error is not a value.
pub wrap_error-ok {ε φ ℓ} :
    {E : Type ε} {F : Type φ} {A : Type ℓ} (f : E → F) (m : Result E A) {a : A}
    → wrap_error f m ≡ ok a
    → m ≡ ok a
wrap_error-ok f (ok a) h = cc
wrap_error-ok f (err e) h = cc

-- Inversion of a step that only checks.
pub wrap_error-eq-ok {ε φ ℓ κ} :
    {E : Type ε} {F : Type φ} {A : Type ℓ} {B : Type κ} (f : E → F) (m : Result E A)
    (k : Result F B) {b : B}
    → (wrap_error f m >> k) ≡ ok b
    → (a : A) × (m ≡ ok a) × (k ≡ ok b)
wrap_error-eq-ok f (ok a) k h = (a, refl, h)
wrap_error-eq-ok f (err e) k h = cc

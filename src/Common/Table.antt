-- ===== src/Common/Table.antt =====
-- A table of the database as the list of its rows: SELECT of the first row, UPDATE, and the number
-- of affected rows.
use Prim.Native.Nat.{ℕ, ◌+◌}
use mathlib.Core.Path.{◌≡◌, refl}
use mathlib.Core.Bool.{Bool, true, false}
use mathlib.Core.Option.{Option, none, some}
use mathlib.Core.List.{List, [], ◌∷◌, ◌++◌}
use native.Mathlib.Omega.{arith}
use seven_mirror_server.Common.Tests.{if◌then◌else◌}
use seven_mirror_server.Common.Lists.{All}

-- `SELECT … WHERE test` with QueryRow.
unfoldable pub find {ℓ} : {A : Type ℓ} → (A → Bool) → List A → Option A
find test [] = none
find test (r ∷ rs) = if test r then some r else find test rs

-- RowsAffected of `UPDATE … WHERE test`.
unfoldable pub count {ℓ} : {A : Type ℓ} → (A → Bool) → List A → ℕ
count test [] = 0
count test (r ∷ rs) = (if test r then 1 else 0) + count test rs

-- `UPDATE … SET change WHERE test`
unfoldable pub update {ℓ} : {A : Type ℓ} → (A → Bool) → (A → A) → List A → List A
update test change [] = []
update test change (r ∷ rs) = (if test r then change r else r) ∷ update test change rs

-- Whether a row passes the test.
unfoldable pub exists {ℓ} : {A : Type ℓ} → (A → Bool) → List A → Bool
exists test [] = false
exists test (r ∷ rs) = if test r then true else exists test rs

pub find-some {ℓ} :
    {A : Type ℓ} (test : A → Bool) (rs : List A) (r : A) → find test rs ≡ some r → test r ≡ true
unfolding find
find-some test [] r h = cc
find-some test (x ∷ rs) r h = ground (arith, find-some test rs r)

pub exists-find {ℓ} :
    {A : Type ℓ} (test : A → Bool) (rs : List A) (r : A)
    → find test rs ≡ some r
    → exists test rs ≡ true
unfolding find exists
exists-find test [] r h = cc
exists-find test (x ∷ rs) r h = ground (arith, exists-find test rs r)

-- A row in a table stays the first that passes the test when rows are added behind it.
pub find-append {ℓ} :
    {A : Type ℓ} (test : A → Bool) (rs : List A) (r : A) (more : List A)
    → find test rs ≡ some r
    → find test (rs ++ more) ≡ some r
unfolding find
find-append test [] r more h = cc
find-append test (x ∷ rs) r more h = ground (arith, find-append test rs r more)

-- An update that keeps what the test reads changes the first row that passes it, where the update
-- reaches that row.
pub find-update {ℓ} :
    {A : Type ℓ} (test reach : A → Bool) (change : A → A) (rs : List A) (r : A)
    → ((x : A) → test (change x) ≡ test x)
    → find test rs ≡ some r
    → find test (update reach change rs) ≡ some (if reach r then change r else r)
unfolding find update
find-update test reach change [] r keep h = cc
find-update test reach change (x ∷ rs) r keep h =
    ground (arith, keep x, find-update test reach change rs r keep)

pub find-update-none {ℓ} :
    {A : Type ℓ} (test reach : A → Bool) (change : A → A) (rs : List A)
    → ((x : A) → test (change x) ≡ test x)
    → find test rs ≡ none
    → find test (update reach change rs) ≡ none
unfolding find update
find-update-none test reach change [] keep h = refl
find-update-none test reach change (x ∷ rs) keep h =
    ground (arith, keep x, find-update-none test reach change rs keep)

pub All-update {ℓ κ} :
    {A : Type ℓ} (P : A → Type κ) (reach : A → Bool) (change : A → A) (rs : List A)
    → ((x : A) → P x → P (change x))
    → All P rs
    → All P (update reach change rs)
unfolding update
All-update P reach change [] keep h = tt
All-update P reach change (x ∷ rs) keep h =
    (ground (arith, h.0, keep x h.0), All-update P reach change rs keep h.1)

-- A test that implies another finds the row that the other found, where that row passes it.
pub find-stronger {ℓ} :
    {A : Type ℓ} (test stronger : A → Bool) (rs : List A) (r : A)
    → ((x : A) → stronger x ≡ true → test x ≡ true)
    → find test rs ≡ some r
    → stronger r ≡ true
    → find stronger rs ≡ some r
unfolding find
find-stronger test stronger [] r within h passes = cc
find-stronger test stronger (x ∷ rs) r within h passes =
    ground (arith, within x, find-stronger test stronger rs r within)

pub find-absent {ℓ} :
    {A : Type ℓ} (test : A → Bool) (rs : List A) → find test rs ≡ none → exists test rs ≡ false
unfolding find exists
find-absent test [] h = refl
find-absent test (x ∷ rs) h = ground (arith, find-absent test rs)

-- A row added to a table that has none like it is found.
pub find-added {ℓ} :
    {A : Type ℓ} (test : A → Bool) (rs : List A) (new : A)
    → find test rs ≡ none
    → test new ≡ true
    → find test (rs ++ new ∷ []) ≡ some new
unfolding find
find-added test [] new absent passes = rw (passes) refl
find-added test (x ∷ rs) new absent passes = ground (arith, find-added test rs new, passes)

-- ===== src/Admission/Keys.antt =====
-- The primary key of the devices.
use seven_mirror_server.Common.{
  ◌≡◌, refl, sym, inl, inr, Bool, true, false, some, List, [], ◌∷◌, Bool-cases, Option-cases, arith,
  if◌then◌else◌,
}
use seven_mirror_server.Common.Bytes.{Bytes, equal_iff}
use seven_mirror_server.Common.Table.{find, count, exists, find-absent}
use seven_mirror_server.Admission.{Device, is_device}

-- No two rows have the same key.
unfoldable pub IsKeyed : List Device → Type 0
IsKeyed [] = Unit {0}
IsKeyed (d ∷ ds) = (exists (is_device d.workspace_id d.id) ds ≡ false) × IsKeyed ds

-- A key that is not there is not reached.
count-absent :
    (test reach : Device → Bool) (ds : List Device)
    → ((x : Device) → reach x ≡ true → test x ≡ true)
    → exists test ds ≡ false
    → count reach ds ≡ 0
unfolding count exists
count-absent test reach [] within h = refl
count-absent test reach (x ∷ ds) within h =
    ground (arith, within x, count-absent test reach ds within)

-- Statements restricted to one key affect its row, or none.
pub count-key :
    (w i : Bytes) (reach : Device → Bool) (ds : List Device) (d : Device)
    → IsKeyed ds
    → ((x : Device) → reach x ≡ true → is_device w i x ≡ true)
    → find (is_device w i) ds ≡ some d
    → count reach ds ≡ (if reach d then 1 else 0)
unfolding IsKeyed find count
count-key w i reach [] d keyed within h = cc
count-key w i reach (x ∷ ds) d keyed within h = elim (Bool-cases (is_device w i x)) [
  | inl here ↦
      let same_w : x.workspace_id ≡ w = ground (arith, here, equal_iff x.workspace_id w) in
      let same_i : x.id ≡ i = ground (arith, here, equal_iff x.id i) in
      let alone : exists (is_device w i) ds ≡ false = rw (sym same_w, sym same_i) keyed.0 in
      ground (arith, here, h, count-absent (is_device w i) reach ds within alone)
  | inr other ↦ ground (arith, other, h, within x, count-key w i reach ds d keyed.1 within)
]

-- A statement restricted to one key that affected a row found its key.
pub count-one :
    (w i : Bytes) (reach : Device → Bool) (ds : List Device)
    → IsKeyed ds
    → ((x : Device) → reach x ≡ true → is_device w i x ≡ true)
    → count reach ds ≡ 1
    → (d : Device) × (find (is_device w i) ds ≡ some d) × (reach d ≡ true)
count-one w i reach ds keyed within one = elim (Option-cases (find (is_device w i) ds)) [
  | inl absent ↦
      let zero_rows =
        count-absent (is_device w i) reach ds within (find-absent (is_device w i) ds absent) in
      ground (arith, one, zero_rows)
  | inr (d, stored) ↦ (d, stored, ground (arith, one, count-key w i reach ds d keyed within stored))
]

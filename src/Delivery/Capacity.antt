-- ===== src/Delivery/Capacity.antt =====
-- `enforceDeliveryCapacity`: the loop by steps.
pub mod Bounds
use seven_mirror_server.Common.{ℕ, suc, ◌≡◌, refl, true, false, none, some}
use seven_mirror_server.Common.Result.{ok, err}
use seven_mirror_server.Delivery.{
  Mailbox, nothing_to_evict, min_id, fits_capacity, evict, enforce_delivery_capacity,
}

module _ (fuel : ℕ) (m : Mailbox) where
  -- The loop ends at a mailbox that fits.
  pub enforce_stop : fits_capacity m.rows ≡ true → enforce_delivery_capacity (suc fuel) m ≡ ok m
  unfolding enforce_delivery_capacity
  enforce_stop e = rw (e, enforce_delivery_capacity)

  -- Otherwise it removes the oldest row and goes on.
  pub enforce_next :
      (oldest : ℕ)
      → fits_capacity m.rows ≡ false
      → min_id m.rows ≡ some oldest
      → enforce_delivery_capacity (suc fuel) m ≡ enforce_delivery_capacity fuel (evict oldest m)
  unfolding enforce_delivery_capacity
  enforce_next oldest e f = rw (e, enforce_delivery_capacity) (rw (f, enforce_delivery_capacity))

  pub enforce_nothing :
      fits_capacity m.rows ≡ false
      → min_id m.rows ≡ none
      → enforce_delivery_capacity (suc fuel) m ≡ err nothing_to_evict
  unfolding enforce_delivery_capacity
  enforce_nothing e f = rw (e, enforce_delivery_capacity) (rw (f, enforce_delivery_capacity))

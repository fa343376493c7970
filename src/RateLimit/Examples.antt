-- ===== src/RateLimit/Examples.antt =====
-- A limiter of two keys and two requests a window of 10, with a window of "a" running since 3.
use Prim.Native.String.{String}
use seven_mirror_server.Common.{ℕ, ◌≡◌, refl, some, true, false, min, List, [], ◌∷◌, arith, ◌-◌}
use seven_mirror_server.Common.Result.{ok, err}
use seven_mirror_server.RateLimit.{
  FixedWindow, Entry, limits_not_positive, new_fixed_window, lookup, delete, put, sweep, admit_new,
  admit_again, allow, allow_all, admitted,
}
use seven_mirror_server.RateLimit.Bounds.{IsBounded, allow_all-IsBounded}
use seven_mirror_server.RateLimit.Quota.{passes, asked, admitted-quota}

abbrev held : Entry
held = record { started_at = 3; attempts = 1 }

abbrev limiter : FixedWindow
limiter = record { entries = ("a", held) ∷ []; limit = 2; max_entries = 2; window = 10 }

abbrev requests : List (String × ℕ)
requests = ("b", 4) ∷ ("a", 5) ∷ ("c", 6) ∷ ("a", 7) ∷ ("a", 12) ∷ []

built :
    new_fixed_window 2 2 10 ≡ ok (record { entries = []; limit = 2; max_entries = 2; window = 10 })
unfolding new_fixed_window
built = refl

refused : new_fixed_window 2 0 10 ≡ err limits_not_positive
unfolding new_fixed_window
refused = refl

answers :
    admitted limiter requests
    ≡ ("b", true) ∷ ("a", true) ∷ ("c", false) ∷ ("a", false) ∷ ("a", false) ∷ []
unfolding admitted allow admit_new admit_again lookup delete put sweep
answers = refl

allow_all-IsBounded_example : IsBounded (allow_all limiter requests)
allow_all-IsBounded_example =
    allow_all-IsBounded limiter requests
      (record { positive = omega arith; size = omega arith; counters = (omega arith, tt) })

looked : lookup "a" limiter.entries ≡ some held
unfolding lookup
looked = refl

admitted-quota_example :
    passes "a" (admitted limiter requests)
    ≡ min (asked "a" requests) (limiter.limit - held.attempts)
admitted-quota_example =
    admitted-quota limiter "a" held requests looked (refl, (refl, (refl, (refl, (refl, tt)))))

-- ===== src/Backoff/Examples.antt =====
-- The theorems on backoffs at a small configuration, and tests.
use dskit.Base.{All, [], arith, false, refl, ℕ, ◌∷◌, ◌≡◌, ◌≤◌}
use dskit.Backoff.{Config, Backoff, new, ongoing, backoff_err, delays, delays-bounds, ongoing_iff}

abbrev cfg : Config
cfg = record { min_backoff = 100; max_backoff = 500; max_retries = 3 }

-- draws the least number of a range
abbrev least : ℕ → ℕ
least n = 0

delays-bounds_example : All (λ d. (100 ≤ d) × (d ≤ 500)) (delays least 4 (new false cfg))
delays-bounds_example =
    delays-bounds least 4 false cfg (λ k some_k. some_k) (omega arith) (omega arith)

delays_test : delays least 4 (new false cfg) ≡ 100 ∷ 200 ∷ 400 ∷ 400 ∷ []
unfolding dskit.Backoff.next_delay new
delays_test = refl

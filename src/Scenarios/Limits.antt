-- ===== src/Scenarios/Limits.antt =====
-- Three calls in one minute under a limit of two.
use softbox_ai.Prelude.{◌≡◌, ◌⊎◌, ◌≤◌, ℕ, refl, List, [], ◌∷◌, arith}
use softbox_ai.RateLimiter.{RateLimitWindow}
use softbox_ai.RateLimiter.Fairness.{allowed, allow_lem}

abbrev none_yet : List RateLimitWindow
none_yet = []

abbrev calls : List ℕ
calls = 60 ∷ 70 ∷ 119 ∷ []

allow_example :
    (allowed (λ now. now) 1 "publish" 2 60 calls none_yet ≤ 2)
    × ((allowed (λ now. now) 1 "publish" 2 60 calls none_yet ≡ 3)
        ⊎ (allowed (λ now. now) 1 "publish" 2 60 calls none_yet ≡ 2))
unfolding softbox_ai.RateLimiter.Fairness.used
allow_example =
    allow_lem (λ now. now) 1 "publish" 2 60 60 calls none_yet (refl, (refl, (refl, tt)))
      (omega arith) refl

-- ===== src/Services/RateLimit/Laws.antt =====
-- The quotas that the configuration gives, and the answers to a client that is limited.
use native.Mathlib.Nat.{div-add-mod, mod-lt}
use ch_api_authenticator.Base.{ℕ, ◌+◌, ◌*◌, ◌≡◌, ◌≤◌, ◌<◌, String, arith}
use ch_api_authenticator.Error.{AppError, too_many_requests}
use ch_api_authenticator.Exec.{Result, ok, err}
use ch_api_authenticator.Services.RateLimit.{
  quota_for, Governor, RateLimitPolicy, enforce, retry_after_secs, limited,
}

-- A rule with at least a nanosecond for each request becomes a quota whose burst is the rule's
-- maximum, and whose whole burst is replenished within the window, the division's rest aside.
pub quota_for_bounds :
    (m window : ℕ)
    → 0 < m
    → m ≤ window
    → ((quota_for m window).burst ≡ m)
      × (0 < (quota_for m window).replenish_1_per)
      × ((quota_for m window).replenish_1_per * m ≤ window)
      × (window < ((quota_for m window).replenish_1_per + 1) * m)
unfolding quota_for
quota_for_bounds m window h k = grind (arith, div-add-mod window m, mod-lt window h)

-- Whatever the rule, no quota is empty or replenished in no time.
pub quota_for_pos :
    (m window : ℕ) → (0 < (quota_for m window).burst) × (0 < (quota_for m window).replenish_1_per)
unfolding quota_for
quota_for_pos m window = ground arith

limited-refusal :
    (r : Result ℕ (Unit {0})) (e : AppError)
    → limited r ≡ err e
    → (secs : ℕ) × (e ≡ too_many_requests secs) × (1 ≤ secs)
unfolding retry_after_secs
limited-refusal (ok done) e h = cc
limited-refusal (err wait) e h = (retry_after_secs wait, ground arith, ground arith)

module _ (governor : Governor) where
  -- A request that the limiter refuses is told to wait a second at least, and nothing else.
  pub enforce_refusal :
      (now : ℕ) (key : String) (policy : RateLimitPolicy) (e : AppError)
      → (enforce governor now key policy).0 ≡ err e
      → (secs : ℕ) × (e ≡ too_many_requests secs) × (1 ≤ secs)
  unfolding enforce
  enforce_refusal now key policy e h =
      limited-refusal (governor.check_key policy.quota now key policy.state).0 e h

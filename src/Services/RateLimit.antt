-- ===== src/Services/RateLimit.antt =====
-- services/rate_limit.rs: request quotas by key, over the `governor` crate. Durations are counted in
-- nanoseconds.
pub mod Laws
use ch_api_authenticator.Base.{
  ℕ, ◌+◌, ◌*◌, ◌/◌, ◌%◌, String, Bool, true, false, Option, none, some, eqb, if◌then◌else◌,
}
use ch_api_authenticator.Base.Text.{decimal}
use ch_api_authenticator.Error.{AppError, too_many_requests}
use ch_api_authenticator.Exec.{Result, ok, err, Exec}

-- A `Quota`: a burst of cells, and the time in which one cell is replenished.
pub record Quota : Type 0 where
  pub burst : ℕ
  pub replenish_1_per : ℕ

abbrev pub one_second : ℕ
one_second = 1000000000

-- `NonZeroU32::new(max).unwrap_or(NonZeroU32::MIN)`
abbrev burst_of : ℕ → ℕ
burst_of m = if eqb m 0 then 1 else m

-- `window.checked_div(burst)`, one second where that is zero. A period that is not zero is one that
-- `Quota::with_period` takes.
unfoldable pub quota_for : ℕ → ℕ → Quota
quota_for m window =
    let burst = burst_of m in
    let cell = window / burst in
    record { burst = burst; replenish_1_per = if eqb cell 0 then one_second else cell }

pub record RateLimitRule : Type 0 where
  pub max : ℕ
  pub window : ℕ

pub record RateLimitConfig : Type 0 where
  pub login : RateLimitRule
  pub forgot : RateLimitRule
  pub refresh : RateLimitRule

-- The keyed state of a limiter belongs to the crate: what `check_key` answers is a function of the
-- quota, the time, the key and that state. A refusal gives the time to wait.
abbrev pub LimiterState : Type 0
LimiterState = ℕ

pub record Governor : Type 0 where
  pub initial : LimiterState
  pub check_key : Quota → ℕ → String → Exec LimiterState ℕ (Unit {0})
  pub retain_recent : Quota → ℕ → LimiterState → LimiterState

pub record RateLimitPolicy : Type 0 where
  pub quota : Quota
  pub state : LimiterState

pub record RateLimiters : Type 0 where
  pub login : RateLimitPolicy
  pub forgot : RateLimitPolicy
  pub refresh : RateLimitPolicy

-- `wait.as_secs().max(1)`
unfoldable pub retry_after_secs : ℕ → ℕ
retry_after_secs wait = let secs = wait / one_second in if eqb secs 0 then 1 else secs

abbrev limited : Result ℕ (Unit {0}) → Result AppError (Unit {0})
limited (ok done) = ok tt
limited (err wait) = err (too_many_requests (retry_after_secs wait))

module _ (governor : Governor) where
  open governor use {initial, check_key, retain_recent}

  -- `RateLimitPolicy::new`
  unfoldable pub new_policy : RateLimitRule → RateLimitPolicy
  new_policy rule = record { quota = quota_for rule.max rule.window; state = initial }

  -- `RateLimiters::from_config`
  unfoldable pub from_config : RateLimitConfig → RateLimiters
  unfolding new_policy
  from_config config = record {
    login = new_policy config.login;
    forgot = new_policy config.forgot;
    refresh = new_policy config.refresh;
  }

  -- `RateLimitPolicy::enforce`
  unfoldable pub enforce : ℕ → String → Exec RateLimitPolicy AppError (Unit {0})
  enforce now key policy =
      let m = check_key policy.quota now key policy.state in
      (limited m.0, record policy { state = m.1 })

  cleanup_policy : ℕ → RateLimitPolicy → RateLimitPolicy
  cleanup_policy now policy = record policy { state = retain_recent policy.quota now policy.state }

  -- `RateLimiters::cleanup`
  unfoldable pub cleanup : ℕ → RateLimiters → RateLimiters
  unfolding cleanup_policy
  cleanup now limiters = record {
    login = cleanup_policy now limiters.login;
    forgot = cleanup_policy now limiters.forgot;
    refresh = cleanup_policy now limiters.refresh;
  }

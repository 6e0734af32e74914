-- ===== src/Config/Laws.antt =====
-- What holds of the settings with which the service starts.
use Prim.Native.String.{len}
use ch_api_authenticator.Base.{ℕ, ◌≡◌, refl, ◌↔◌, ◌≤◌, ◌<◌, String, arith}
use ch_api_authenticator.Exec.{Result, ok, err}
use ch_api_authenticator.Services.RateLimit.{RateLimitRule, RateLimitConfig}
use ch_api_authenticator.Config.{
  ConfigError, Secrets, Settings, Config, Environ, ◌>>=◌, rule, load_rate_limit, load_secrets,
  validate_secrets, load,
}

-- The secrets that pass are those of 32 bytes or more each.
pub validate_secrets_iff :
    (secrets : Secrets)
    → (validate_secrets secrets ≡ ok tt) ↔ (
        (32 ≤ len secrets.jwt_secret)
        × (32 ≤ len secrets.internal_api_secret)
        × (32 ≤ len secrets.missive_api_secret))
unfolding validate_secrets
validate_secrets_iff secrets = (λ e. ground arith, λ h. ground arith)

-- A rule of the settings allows a request in some time.
abbrev pub IsPositive : RateLimitRule → Type 0
IsPositive r = (0 < r.max) × (0 < r.window)

rule-IsPositive :
    (env : Environ) (max_name : String) (max : ℕ) (window_name : String) (window : ℕ)
    (r : RateLimitRule)
    → 0 < max
    → 0 < window
    → rule env max_name max window_name window ≡ ok r
    → IsPositive r
unfolding rule
rule-IsPositive env max_name max window_name window r hm hw e = ground arith

bind-eq-ok :
    {A B : Type 0} (m : Result ConfigError A) (f : A → Result ConfigError B) {b : B}
    → (m >>= f) ≡ ok b
    → (a : A) × (m ≡ ok a) × (f a ≡ ok b)
bind-eq-ok (ok a) f h = (a, refl, h)
bind-eq-ok (err e) f h = cc

load_rate_limit-IsPositive :
    (env : Environ) (config : RateLimitConfig)
    → load_rate_limit env ≡ ok config
    → IsPositive config.login × IsPositive config.forgot × IsPositive config.refresh
unfolding load_rate_limit
load_rate_limit-IsPositive env config e =
    let (login, l, e₁) = bind-eq-ok (rule env _ _ _ _) _ e in
    let (forgot, f, e₂) = bind-eq-ok (rule env _ _ _ _) _ e₁ in
    let (refresh, r, e₃) = bind-eq-ok (rule env _ _ _ _) _ e₂ in
    let login_pos = rule-IsPositive env _ 5 _ 300 login (omega arith) (omega arith) l in
    let forgot_pos = rule-IsPositive env _ 3 _ 900 forgot (omega arith) (omega arith) f in
    let refresh_pos = rule-IsPositive env _ 30 _ 60 refresh (omega arith) (omega arith) r in
    ground (arith, login_pos, forgot_pos, refresh_pos)

-- When the service starts, its three secrets have 32 bytes or more, and each of its three limits
-- allows at least one request in a window that is not empty.
pub load_sound :
    (extracted : Result ConfigError Config) (env : Environ) (settings : Settings)
    → load extracted env ≡ ok settings
    → (32 ≤ len settings.secrets.jwt_secret)
      × (32 ≤ len settings.secrets.internal_api_secret)
      × (32 ≤ len settings.secrets.missive_api_secret)
      × IsPositive settings.rate_limit.login
      × IsPositive settings.rate_limit.forgot
      × IsPositive settings.rate_limit.refresh
unfolding load
load_sound extracted env settings e =
    let (config, _, e₁) = bind-eq-ok extracted _ e in
    let (secrets, _, e₂) = bind-eq-ok (load_secrets env) _ e₁ in
    let (done, valid, e₃) = bind-eq-ok (validate_secrets secrets) _ e₂ in
    let (limits, loaded, e₄) = bind-eq-ok (load_rate_limit env) _ e₃ in
    let long = (validate_secrets_iff secrets).0 (ground (arith, valid)) in
    ground (arith, long, load_rate_limit-IsPositive env limits loaded)

-- ===== src/Examples/Components.antt =====
-- The services, the settings and the repositories on small inputs.
use ch_api_authenticator.Base.{◌⊎◌}
use ch_api_authenticator.Services.ClientIp.Laws.{SomeHolds, States}
use ch_api_authenticator.Validation.Laws.{IsListed}
use ch_api_authenticator.Services.Net.{IpAddr}
use ch_api_authenticator.Config.{overridden}
use ch_api_authenticator.Config.{rule}
use ch_api_authenticator.Config.{load_rate_limit}
use ch_api_authenticator.Config.{optional}
use ch_api_authenticator.Config.{require}
use ch_api_authenticator.Config.{load_secrets}
use ch_api_authenticator.Base.Text.{is_space}
use ch_api_authenticator.Handlers.Cookies.Laws.{cookie_value-render, first_value, render}
use ch_api_authenticator.Handlers.Cookies.{cookie_value}
use ch_api_authenticator.Base.{List}
use Prim.Native.String.{count, len}
use ch_api_authenticator.Services.ClientIp.Laws.{resolve_iff}
use ch_api_authenticator.Validation.Laws.{validate_password_strength_iff}
use ch_api_authenticator.Base.Text.{trim}
use ch_api_authenticator.Services.RateLimit.Laws.{quota_for_bounds}
use ch_api_authenticator.Services.Whitelist.{ip_allowed}
use ch_api_authenticator.Examples.Instances.{net, unary, unicode}
use ch_api_authenticator.Exec.{ok}
use ch_api_authenticator.Domain.RolesFormat.{distinct_roles}
use ch_api_authenticator.Examples.Scenario.{config, platform, secrets, state}
use ch_api_authenticator.Services.Jwt.Laws.{validate-issue}
use ch_api_authenticator.Validation.{any_char, is_ascii_digit, validate_password_strength}
use ch_api_authenticator.Services.ClientIp.{TrustedProxies, resolve}
use ch_api_authenticator.Base.{
  String, [], arith, if◌then◌else◌, none, not, refl, some, true, ◌*◌, ◌+◌, ◌<◌, ◌==◌, ◌||◌, ◌↔◌,
  ◌∷◌, ◌≡◌, ◌≤◌,
}
use ch_api_authenticator.Services.RateLimit.{RateLimitPolicy, quota_for}
use ch_api_authenticator.Services.Jwt.{
  JwtService, audiences_by_role, audiences_for, claims_for, issue, validate,
}
use ch_api_authenticator.Config.Laws.{IsPositive, load_sound}
use ch_api_authenticator.Services.Whitelist.Laws.{SomeAdmits, ip_allowed_iff}
use ch_api_authenticator.Services.Net.{Headers, eq_ip, v4}
use ch_api_authenticator.Config.{Environ, Settings, load, validate_secrets}
use ch_api_authenticator.Services.Jwt

abbrev proxies : TrustedProxies
proxies = record { networks = eq_ip (v4 9) ∷ [] }

abbrev forwarding : Headers
forwarding name = if name == "x-client-ip" then some "vaaa" else none

-- The address that the header states, from a peer that is trusted.
resolve_iff_example : (resolve net proxies (v4 9) forwarding ≡ v4 3) ↔ (
    (SomeHolds net proxies.networks (v4 9) × States net forwarding (v4 3))
    ⊎ ((¬ (SomeHolds net proxies.networks (v4 9))
          ⊎ ((other : IpAddr) → ¬ (States net forwarding other)))
        × (v4 9 ≡ v4 3)))
resolve_iff_example = resolve_iff net proxies (v4 9) forwarding (v4 3)

ip_allowed_iff_example :
    (ip_allowed net (v4 3) ("vaaa" ∷ []) ≡ true) ↔ SomeAdmits net (v4 3) ("vaaa" ∷ [])
ip_allowed_iff_example = ip_allowed_iff net (v4 3) ("vaaa" ∷ [])

abbrev limited_policy : RateLimitPolicy
limited_policy = record { quota = record { burst = 1; replenish_1_per = 5 }; state = 0 }

quota_for_bounds_example :
    ((quota_for 5 300).burst ≡ 5)
    × (0 < (quota_for 5 300).replenish_1_per)
    × ((quota_for 5 300).replenish_1_per * 5 ≤ 300)
    × (300 < ((quota_for 5 300).replenish_1_per + 1) * 5)
quota_for_bounds_example = quota_for_bounds 5 300 (omega arith) (omega arith)

validate_password_strength_iff_example :
    (validate_password_strength unicode ("Old-password-1" ∷ []) "New-password-2" ≡ ok tt) ↔ (
      (12 ≤ count "New-password-2")
      × (any_char unicode.is_uppercase "New-password-2" ≡ true)
      × (any_char unicode.is_lowercase "New-password-2" ≡ true)
      × (any_char is_ascii_digit "New-password-2" ≡ true)
      × (any_char (λ c. not (unicode.is_alphanumeric c)) "New-password-2" ≡ true)
      × ¬ (IsListed unicode "New-password-2" ("Old-password-1" ∷ [])))
validate_password_strength_iff_example =
    validate_password_strength_iff unicode ("Old-password-1" ∷ []) "New-password-2"

abbrev environ : Environ
environ name =
    if name == "MONGO_URI"
    then some "mongodb"
    else if name == "JWT_SECRET" || name == "INTERNAL_API_SECRET" || name == "MISSIVE_API_SECRET"
    then some "0123456789abcdef0123456789abcdef"
    else none

abbrev settings : Settings
settings = record {
  config = config;
  secrets = secrets;
  rate_limit = record {
    login = record { max = 5; window = 300 * 1000000000 };
    forgot = record { max = 3; window = 900 * 1000000000 };
    refresh = record { max = 30; window = 60 * 1000000000 };
  };
}

load_sound_example :
    (32 ≤ len secrets.jwt_secret)
    × (32 ≤ len secrets.internal_api_secret)
    × (32 ≤ len secrets.missive_api_secret)
    × IsPositive settings.rate_limit.login
    × IsPositive settings.rate_limit.forgot
    × IsPositive settings.rate_limit.refresh
unfolding load load_secrets require optional trim validate_secrets load_rate_limit rule overridden
load_sound_example = load_sound (ok config) environ settings refl

validate-issue_example :
    Jwt.validate platform.jwt state.jwt 1960 "token"
    ≡ some (record (claims_for platform.jwt unary state.jwt 1000 7 ("admin" ∷ []) none) {
      roles = distinct_roles ("admin" ∷ []);
    })
unfolding issue audiences_for
validate-issue_example =
    validate-issue platform.jwt unary state.jwt 1000 1960 7 ("admin" ∷ []) none "token"
      (omega arith) refl

abbrev drive_service : JwtService
drive_service = record state.jwt { audiences_by_role = ("drive", "d") ∷ ("budgy", "b") ∷ [] }

abbrev pairs : List (String × String)
pairs = ("r", "") ∷ ("r", "v") ∷ []

abbrev sending : Headers
sending name = if name == "cookie" then some (render pairs) else none

cookie_value-render_example : cookie_value sending "r" ≡ first_value "r" pairs
unfolding is_space
cookie_value-render_example =
    cookie_value-render sending "r" pairs
      (
        record {
          name_space = (refl, tt);
          name_free = (omega arith, tt);
          name_plain = (omega arith, tt);
          value_space = tt;
          value_free = tt;
        },
        (
          record {
            name_space = (refl, tt);
            name_free = (omega arith, tt);
            name_plain = (omega arith, tt);
            value_space = (refl, tt);
            value_free = (omega arith, tt);
          },
          tt,
        ),
      )
      refl

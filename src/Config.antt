-- ===== src/Config.antt =====
-- config.rs: the settings of the service, from a file and from the environment.
pub mod Laws
pub mod Defaults
use Prim.Native.String.{len}
use ch_api_authenticator.Base.{
  ℕ, ◌-◌, ◌*◌, ◌^◌, String, Bool, true, false, ◌&&◌, not, Option, none, some, List, [], ltb,
  if◌then◌else◌,
}
use ch_api_authenticator.Base.Text.{trim, is_empty, parse_uint}
use ch_api_authenticator.Exec.{Result, ok, err, ok_or}
use ch_api_authenticator.Services.RateLimit.{one_second, RateLimitRule, RateLimitConfig}
use ch_api_authenticator.Services.Jwt.{TokenConfig}

abbrev pub min_jwt_secret_bytes : ℕ
min_jwt_secret_bytes = 32

abbrev pub min_internal_api_secret_bytes : ℕ
min_internal_api_secret_bytes = 32

abbrev pub min_missive_api_secret_bytes : ℕ
min_missive_api_secret_bytes = 32

pub data ConfigError : Type 0 where
  file missing_secret : String → ConfigError
  weak_jwt_secret weak_internal_api_secret weak_missive_api_secret : ℕ → ConfigError
  invalid_value : String → String → ConfigError

pub data Environment : Type 0 where
  dev prod : Environment

pub record PasswordResetConfig : Type 0 where
  pub url : String
  pub ttl_minutes : ℕ

pub record RelayConfig : Type 0 where
  pub enabled : Bool
  pub host : String
  pub port : ℕ
  pub client_id : String
  pub identity : String
  pub token_ttl_seconds : ℕ

pub record ServerConfig : Type 0 where
  pub port : ℕ
  pub log_level : String

pub record MissiveConfig : Type 0 where
  pub url : String

pub record RegistrationConfig : Type 0 where
  pub default_roles : List String

pub record Config : Type 0 where
  pub environment : Environment
  pub server : ServerConfig
  pub token : TokenConfig
  pub registration : RegistrationConfig
  pub missive : MissiveConfig
  pub password_reset : PasswordResetConfig
  pub relay : RelayConfig

abbrev secure_in : Environment → Bool → Bool
secure_in prod cookie_secure = true
secure_in dev cookie_secure = cookie_secure

-- `Config::cookie_secure_effective`
unfoldable pub cookie_secure_effective : Config → Bool
cookie_secure_effective config = secure_in config.environment config.token.cookie_secure

pub record Secrets : Type 0 where
  pub jwt_secret : String
  pub internal_api_secret : String
  pub mongo_uri : String
  pub admin_email : Option String
  pub admin_password : Option String
  pub missive_api_secret : String
  pub relay_jwt_private_key : Option String

pub record Settings : Type 0 where
  pub config : Config
  pub secrets : Secrets
  pub rate_limit : RateLimitConfig

infixl 5 ◌>>=◌ ◌>>◌
abbrev pub ◌>>=◌ :
    {A B : Type 0} → Result ConfigError A → (A → Result ConfigError B) → Result ConfigError B
ok a >>= f = f a
err e >>= f = err e

abbrev pub ◌>>◌ :
    {A B : Type 0} → Result ConfigError A → Result ConfigError B → Result ConfigError B
m >> k = m >>= λ _. k

-- The environment of the process: `std::env::var(name).ok()`.
abbrev pub Environ : Type 0
Environ = String → Option String

unfoldable pub optional : Environ → String → Option String
optional env name = elim (env name) [
  | none ↦ none
  | some v ↦ if is_empty (trim v) then none else some v
]

unfoldable pub require : Environ → String → Result ConfigError String
require env name = ok_or (optional env name) (missing_secret name)

abbrev u16_max : ℕ
u16_max = 65535

abbrev u32_max : ℕ
u32_max = 4294967295

abbrev u64_max : ℕ
u64_max = 18446744073709551615

-- `.ok().filter(|n| *n > 0).ok_or_else(|| ConfigError::InvalidValue(name, raw))`
abbrev positive_or : String → String → Option ℕ → Result ConfigError ℕ
positive_or name raw none = err (invalid_value name raw)
positive_or name raw (some n) = if ltb 0 n then ok n else err (invalid_value name raw)

unfoldable pub rate_limit_max : Environ → String → ℕ → Result ConfigError ℕ
rate_limit_max env name default = elim (optional env name) [
  | none ↦ ok default
  | some raw ↦ positive_or name raw (parse_uint u32_max raw)
]

-- In nanoseconds.
unfoldable pub rate_limit_window : Environ → String → ℕ → Result ConfigError ℕ
rate_limit_window env name default_secs = elim (optional env name) [
  | none ↦ ok (default_secs * one_second)
  | some raw ↦ do secs ← positive_or name raw (parse_uint u64_max raw); ok (secs * one_second)
]

unfoldable pub rule : Environ → String → ℕ → String → ℕ → Result ConfigError RateLimitRule
unfolding rate_limit_max rate_limit_window
rule env max_name max window_name window_secs = do
  max ← rate_limit_max env max_name max
  window ← rate_limit_window env window_name window_secs
  ok (record { max = max; window = window })

unfoldable pub load_rate_limit : Environ → Result ConfigError RateLimitConfig
load_rate_limit env = do
  login ← rule env "AUTH_RATE_LIMIT_LOGIN_MAX" 5 "AUTH_RATE_LIMIT_LOGIN_WINDOW_SECS" 300
  forgot ← rule env "AUTH_RATE_LIMIT_FORGOT_MAX" 3 "AUTH_RATE_LIMIT_FORGOT_WINDOW_SECS" 900
  refresh ← rule env "AUTH_RATE_LIMIT_REFRESH_MAX" 30 "AUTH_RATE_LIMIT_REFRESH_WINDOW_SECS" 60
  ok (record { login = login; forgot = forgot; refresh = refresh })

unfoldable pub load_secrets : Environ → Result ConfigError Secrets
load_secrets env = do
  jwt_secret ← require env "JWT_SECRET"
  internal_api_secret ← require env "INTERNAL_API_SECRET"
  mongo_uri ← require env "MONGO_URI"
  missive_api_secret ← require env "MISSIVE_API_SECRET"
  ok (record {
    jwt_secret = jwt_secret;
    internal_api_secret = internal_api_secret;
    mongo_uri = mongo_uri;
    admin_email = optional env "ADMIN_EMAIL";
    admin_password = optional env "ADMIN_PASSWORD";
    missive_api_secret = missive_api_secret;
    relay_jwt_private_key = optional env "RELAY_JWT_PRIVATE_KEY";
  })

unfoldable pub validate_secrets : Secrets → Result ConfigError (Unit {0})
validate_secrets secrets =
    let jwt_len = len secrets.jwt_secret in
    let internal_len = len secrets.internal_api_secret in
    let missive_len = len secrets.missive_api_secret in
    if ltb jwt_len min_jwt_secret_bytes
    then err (weak_jwt_secret jwt_len)
    else if ltb internal_len min_internal_api_secret_bytes
    then err (weak_internal_api_secret internal_len)
    else if ltb missive_len min_missive_api_secret_bytes
    then err (weak_missive_api_secret missive_len)
    else ok tt

-- `if let Some(v) = optional(name) { .. = v }`
abbrev or_current : Option String → String → String
or_current none current = current
or_current (some value) current = value

abbrev parsed_port : Option String → ℕ → ℕ
parsed_port none current = current
parsed_port (some raw) current = elim (parse_uint u16_max raw) [ none ↦ current | some port ↦ port ]

unfoldable pub overridden : Environ → Config → Config
overridden env config = record config {
  server = record (config.server) { port = parsed_port (optional env "PORT") config.server.port };
  token = record (config.token) {
    issuer = or_current (optional env "JWT_ISSUER") config.token.issuer;
    audience_drive = or_current (optional env "JWT_AUDIENCE_DRIVE") config.token.audience_drive;
    audience_budgy = or_current (optional env "JWT_AUDIENCE_BUDGY") config.token.audience_budgy;
  };
  missive = record { url = or_current (optional env "MISSIVE_URL") config.missive.url };
}

-- `load`, given what figment extracts from the file and the variables `CH__*`.
unfoldable pub load : Result ConfigError Config → Environ → Result ConfigError Settings
load extracted env = do
  config ← extracted
  secrets ← load_secrets env
  validate_secrets secrets
  rate_limit ← load_rate_limit env
  ok (record { config = overridden env config; secrets = secrets; rate_limit = rate_limit })

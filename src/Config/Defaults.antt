-- ===== src/Config/Defaults.antt =====
-- The defaults of config.rs for what the file leaves out, and how the secrets are printed.
use ch_api_authenticator.Config.{MissiveConfig, PasswordResetConfig, RelayConfig}
use ch_api_authenticator.Base.{Option}
use ch_api_authenticator.Config.{Secrets}
use ch_api_authenticator.Base.{
  Bool, List, String, [], arith, false, none, refl, some, true, ℕ, ◌∷◌, ◌≡◌,
}
use mathlib.Core.Option

abbrev pub default_reset_url : String
default_reset_url = "http://localhost:3000/reset-password"

abbrev pub default_reset_ttl : ℕ
default_reset_ttl = 30

abbrev pub default_missive_url : String
default_missive_url = "http://localhost:8184"

abbrev pub default_relay_host : String
default_relay_host = "127.0.0.1"

abbrev pub default_relay_port : ℕ
default_relay_port = 1883

abbrev pub default_relay_client_id : String
default_relay_client_id = "ch-api-authenticator"

abbrev pub default_relay_identity : String
default_relay_identity = "ch-api-authenticator"

abbrev pub default_relay_token_ttl : ℕ
default_relay_token_ttl = 60

abbrev pub default_log_level : String
default_log_level = "INFO"

-- `impl Default` of the three sections that may be left out as a whole.
abbrev pub default_password_reset : PasswordResetConfig
default_password_reset = record { url = default_reset_url; ttl_minutes = default_reset_ttl }

abbrev pub default_missive : MissiveConfig
default_missive = record { url = default_missive_url }

abbrev pub default_relay : RelayConfig
default_relay = record {
  enabled = false;
  host = default_relay_host;
  port = default_relay_port;
  client_id = default_relay_client_id;
  identity = default_relay_identity;
  token_ttl_seconds = default_relay_token_ttl;
}

abbrev pub default_refresh_ttl_days : ℕ
default_refresh_ttl_days = 7

abbrev pub default_refresh_cookie_name : String
default_refresh_cookie_name = "ch_refresh"

abbrev pub default_jwt_issuer : String
default_jwt_issuer = "ch-api-authenticator"

abbrev pub default_audience_drive : String
default_audience_drive = "ch-api-drive"

abbrev pub default_audience_budgy : String
default_audience_budgy = "ch-api-budgy"

-- The masked fields of `impl Debug for Secrets`, by name; an absent one is `None`.
abbrev masked : Option String → Option String
masked = Option.map (λ _. "***")

unfoldable pub debug : Secrets → List (String × Option String)
debug secrets =
    ("jwt_secret", some "***")
    ∷ ("internal_api_secret", some "***")
    ∷ ("mongo_uri", some "***")
    ∷ ("admin_email", masked secrets.admin_email)
    ∷ ("admin_password", masked secrets.admin_password)
    ∷ ("missive_api_secret", some "***")
    ∷ ("relay_jwt_private_key", masked secrets.relay_jwt_private_key)
    ∷ []

abbrev pub is_present : Option String → Bool
is_present none = false
is_present (some text) = true

masked-is_present : (a b : Option String) → is_present a ≡ is_present b → masked a ≡ masked b
masked-is_present none none e = refl
masked-is_present none (some b) e = cc
masked-is_present (some a) none e = cc
masked-is_present (some a) (some b) e = refl

-- What is printed of the secrets tells no more than which of the optional ones are there.
pub debug-is_present :
    (s t : Secrets)
    → is_present s.admin_email ≡ is_present t.admin_email
    → is_present s.admin_password ≡ is_present t.admin_password
    → is_present s.relay_jwt_private_key ≡ is_present t.relay_jwt_private_key
    → debug s ≡ debug t
unfolding debug
debug-is_present s t email password key = ground (
  arith,
  masked-is_present s.admin_email t.admin_email email,
  masked-is_present s.admin_password t.admin_password password,
  masked-is_present s.relay_jwt_private_key t.relay_jwt_private_key key,
)

-- ===== src/State.antt =====
-- state.rs: what the handlers share. `Platform` is the code that the program calls and does not
-- hold; `World` is what the requests read and change: the collections, the limiters, and what was
-- sent to the other services. `AppState` is the part that is fixed when the service starts.
use ch_api_authenticator.Repository.Indexes.{IndexModel}
use ch_api_authenticator.Base.{if◌then◌else◌}
use ch_api_authenticator.Base.{ℕ, ◌≡◌, String, Bool, Option, some, List, ◌∷◌}
use ch_api_authenticator.Error.{AppError, internal}
use ch_api_authenticator.Exec.{Exec, Result, map_err, ok_or}
use ch_api_authenticator.Domain.User.{ObjectId, User}
use ch_api_authenticator.Domain.Role.{Role}
use ch_api_authenticator.Domain.Events.{UserDeletedEvent}
use ch_api_authenticator.Mongo.{Store}
use ch_api_authenticator.Repository.Users.{Users}
use ch_api_authenticator.Repository.Roles.{Roles}
use ch_api_authenticator.Repository.RefreshTokens.{RefreshToken, RefreshTokens}
use ch_api_authenticator.Repository.ResetTokens.{ResetToken, ResetTokens}
use ch_api_authenticator.Repository.LoginEvents.{LoginEvent, LoginEvents, Aggregate}
use ch_api_authenticator.Repository.Settings.{GlobalSettings, GlobalSettingsCollection}
use ch_api_authenticator.Services.Net.{Net, IpAddr, Headers}
use ch_api_authenticator.Services.ClientIp.{TrustedProxies}
use ch_api_authenticator.Services.RateLimit.{Governor, RateLimitPolicy, enforce}
use ch_api_authenticator.Services.Jwt.{JwtCrate, JwtService}
use ch_api_authenticator.Services.Crypto.{Crypto}
use ch_api_authenticator.Validation.{Unicode, ValidationError}
use ch_api_authenticator.Config.{Settings}
use ch_api_authenticator.Base.{◌/◌}

pub record Platform : Type 0 where
  pub unicode : Unicode
  -- The lines of the two files of compromised passwords, which are compiled in.
  pub compromised : List String
  -- The `validator` crate's test of an email, and the order in which it iterates over errors.
  pub is_email : String → Bool
  pub iterate : List ValidationError → List ValidationError
  -- `ObjectId::to_hex` and `parse_str`.
  pub to_hex : ObjectId → String
  pub parse_str : String → Option ObjectId
  pub parse_str-to_hex : (id : ObjectId) → parse_str (to_hex id) ≡ some id
  -- `try_to_rfc3339_string`, empty where it fails.
  pub rfc3339 : ℕ → String
  pub crypto : Crypto
  pub net : Net
  pub governor : Governor
  pub jwt : JwtCrate
  pub users : Users
  pub roles : Roles
  pub settings : GlobalSettingsCollection
  pub login_events : LoginEvents
  pub aggregate : Aggregate
  -- The order of texts in which the server sorts.
  pub text_before : String → String → Bool
  pub reset_tokens : ResetTokens
  pub refresh_tokens : RefreshTokens

pub record AppState : Type 0 where
  pub settings : Settings
  pub jwt : JwtService
  pub trusted_proxies : TrustedProxies
  -- The relay is connected, rather than disabled.
  pub relay_connected : Bool

-- What `MissiveClient::send_email` was asked to send.
pub record Email : Type 0 where
  pub to : String
  pub subject : String
  pub text : String

pub record World : Type 0 where
  pub users : Store User
  pub roles : Store Role
  pub settings : Store GlobalSettings
  pub login_events : Store LoginEvent
  pub reset_tokens : Store ResetToken
  pub refresh_tokens : Store RefreshToken
  pub login_limiter : RateLimitPolicy
  pub forgot_limiter : RateLimitPolicy
  pub refresh_limiter : RateLimitPolicy
  pub emails : List Email
  pub published : List UserDeletedEvent
  pub indexes : List IndexModel

-- What one request reads from outside: the readings of the clock in their order, in milliseconds, the
-- limiters' clock, the address of the peer, and what is drawn at random.
pub record Ambient : Type 0 where
  pub clock : ℕ → ℕ
  pub limiter_clock : ℕ
  pub peer : IpAddr
  pub headers : Headers
  pub object_id : ObjectId
  pub token : String
  pub salt : String
  pub uuid : String

-- `unix_now` at a reading of the clock.
abbrev pub seconds : ℕ → ℕ
seconds millis = millis / 1000

abbrev pub Handler : Type 0 → Type 0
Handler A = Exec World AppError A

-- A call of one repository, in the world.
module _ {E A : Type 0} where
  abbrev pub in_users : Exec (Store User) E A → Exec World E A
  in_users m w = let r = m w.users in (r.0, record w { users = r.1 })

  abbrev pub in_indexes : Exec (List IndexModel) E A → Exec World E A
  in_indexes m w = let r = m w.indexes in (r.0, record w { indexes = r.1 })

  abbrev pub in_roles : Exec (Store Role) E A → Exec World E A
  in_roles m w = let r = m w.roles in (r.0, record w { roles = r.1 })

  abbrev pub in_settings : Exec (Store GlobalSettings) E A → Exec World E A
  in_settings m w = let r = m w.settings in (r.0, record w { settings = r.1 })

  abbrev pub in_login_events : Exec (Store LoginEvent) E A → Exec World E A
  in_login_events m w = let r = m w.login_events in (r.0, record w { login_events = r.1 })

  abbrev pub in_reset_tokens : Exec (Store ResetToken) E A → Exec World E A
  in_reset_tokens m w = let r = m w.reset_tokens in (r.0, record w { reset_tokens = r.1 })

  abbrev pub in_refresh_tokens : Exec (Store RefreshToken) E A → Exec World E A
  in_refresh_tokens m w = let r = m w.refresh_tokens in (r.0, record w { refresh_tokens = r.1 })

-- `.map_err(|e| { tracing::error!(..); AppError::Internal })?`
abbrev pub or_internal : {E A : Type 0} → Exec World E A → Handler A
or_internal = map_err (λ _. internal)

module _ (governor : Governor) where
  unfoldable pub enforce_login : ℕ → String → Handler (Unit {0})
  enforce_login now key w =
      let r = enforce governor now key w.login_limiter in (r.0, record w { login_limiter = r.1 })

  unfoldable pub enforce_forgot : ℕ → String → Handler (Unit {0})
  enforce_forgot now key w =
      let r = enforce governor now key w.forgot_limiter in (r.0, record w { forgot_limiter = r.1 })

  unfoldable pub enforce_refresh : ℕ → String → Handler (Unit {0})
  enforce_refresh now key w =
      let r = enforce governor now key w.refresh_limiter in
      (r.0, record w { refresh_limiter = r.1 })

-- `option.expect(..)`: a panic, which ends the request with no answer of the API's own. It is kept as
-- `internal`; a stored account has an id.
abbrev pub expect : {A : Type 0} → Option A → Result AppError A
expect found = ok_or found internal

-- `MissiveClient::send_email` in its own task: whether it arrives changes nothing here.
unfoldable pub send_email : Email → Handler (Unit {0})
send_email email w = (Result.ok tt, record w { emails = email ∷ w.emails })

-- `RelayPublisher::publish_user_deleted` of services/relay.rs: nothing where the relay is disabled.
-- A failure of the client is logged only.
unfoldable pub publish_user_deleted : AppState → UserDeletedEvent → Handler (Unit {0})
publish_user_deleted state event w = (
  Result.ok tt,
  if state.relay_connected then record w { published = event ∷ w.published } else w,
)

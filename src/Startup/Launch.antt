-- ===== src/Startup/Launch.antt =====
-- main.rs and `AppState::new` of state.rs: the service from its configuration to the point where it
-- listens. Each `std::process::exit(1)` is an error here.
pub mod Laws
pub mod Accounts
pub mod Refusals
pub mod Indexes
pub mod Lifetime
use ch_api_authenticator.Base.{◌≡◌, ◌⊎◌}
use ch_api_authenticator.State.{in_indexes}
use ch_api_authenticator.Base.{Option}
use mathlib.Core.List.{◌++◌}
use ch_api_authenticator.Services.ClientIp.{from_env}
use ch_api_authenticator.Repository.Roles.{ensure_portal_roles}
use ch_api_authenticator.Service.Requests.{done}
use ch_api_authenticator.Startup.{SeedError, seed_admin}
use ch_api_authenticator.Services.Relay.{
  RelayError, RelayPublisher, Rs256, connected, from_settings,
}
use ch_api_authenticator.Services.RateLimit.{RateLimitConfig, from_config}
use ch_api_authenticator.Mongo.{MongoError}
use ch_api_authenticator.Repository.Indexes.{
  IndexModel, login_event_indexes, refresh_token_indexes, reset_token_indexes, role_indexes,
  user_indexes,
}
use ch_api_authenticator.Exec.{Exec, Result, err, lift, lift_err, map_err, ok, pure, ◌>>=◌, ◌>>◌}
use ch_api_authenticator.Config.{Config, ConfigError, Environ, Settings, load}
use ch_api_authenticator.Base.{Bool, List, String, [], false, true, ℕ, ◌∷◌}
use ch_api_authenticator.State.{Ambient, AppState, Platform, World, in_roles}
use ch_api_authenticator.Services.Jwt
use ch_api_authenticator.Services.ClientIp
use ch_api_authenticator.Services.Relay

pub data LaunchError : Type 0 where
  invalid_configuration : ConfigError → LaunchError
  missive_client mongodb_unreachable : LaunchError
  invalid_relay : RelayError → LaunchError
  index_creation portal_roles : MongoError → LaunchError
  seed : SeedError → LaunchError

-- What main.rs calls of other crates, beside the platform: the HTTP client, the connection, the
-- creation of an index, the RS256 crate, and its clock in seconds.
pub record Host : Type 0 where
  pub build_http : Result LaunchError (Unit {0})
  pub connect : String → Result LaunchError (Unit {0})
  pub create_index : IndexModel → Exec (List IndexModel) MongoError (Unit {0})
  -- An index that is asked for is made, and one that fails was made or not.
  pub create_index_law :
      (index : IndexModel) (made : List IndexModel)
      → (((create_index index made).0 ≡ ok tt) × ((create_index index made).1 ≡ made ++ index ∷ []))
        ⊎ ((e : MongoError) × ((create_index index made).0 ≡ err e)
            × (((create_index index made).1 ≡ made)
                ⊎ ((create_index index made).1 ≡ made ++ index ∷ [])))
  pub rs256 : Rs256
  pub now : ℕ

abbrev pub is_connected : RelayPublisher → Bool
is_connected Relay.disabled = false
is_connected (connected options) = true

module _ (x : Platform) where
  -- `AppState::new`, the part that does not change; AUTH_TRUSTED_PROXIES is read here.
  unfoldable pub new_state : Settings → Option String → RelayPublisher → AppState
  new_state settings trusted relay = record {
    settings = settings;
    jwt = Jwt.new settings.secrets.jwt_secret settings.config.token;
    trusted_proxies = ClientIp.from_env x.net trusted;
    relay_connected = is_connected relay;
  }

  -- The limiters of `AppState::new`, which no request has used yet.
  unfoldable pub with_limiters : RateLimitConfig → World → World
  with_limiters config w =
      let limiters = from_config x.governor config in
      record w {
        login_limiter = limiters.login;
        forgot_limiter = limiters.forgot;
        refresh_limiter = limiters.refresh;
      }

abbrev set_limiters : Platform → RateLimitConfig → Exec World LaunchError (Unit {0})
set_limiters x config w = (ok tt, with_limiters x config w)

module _ (host : Host) where
  -- The indexes one after another, up to the first that fails.
  unfoldable pub create_indexes : List IndexModel → Exec (List IndexModel) MongoError (Unit {0})
  create_indexes [] = pure tt
  create_indexes (index ∷ indexes) = do host.create_index index; create_indexes indexes

-- The block `indexes`.
abbrev pub all_indexes : List IndexModel
all_indexes =
    user_indexes
    ++ (role_indexes ++ (reset_token_indexes ++ (login_event_indexes ++ refresh_token_indexes)))

module _ (x : Platform) (host : Host) (ambient : Ambient) where
  unfoldable pub launch : Result ConfigError Config → Environ → Exec World LaunchError AppState
  launch extracted env = do
    settings ← lift_err invalid_configuration (load extracted env)
    lift (host.build_http)
    lift (host.connect settings.secrets.mongo_uri)
    relay ←
        lift_err invalid_relay
          (from_settings host.rs256 host.now settings.config.relay settings.secrets)
    let state = new_state x settings (env "AUTH_TRUSTED_PROXIES") relay
    set_limiters x settings.rate_limit
    map_err index_creation (in_indexes (create_indexes host all_indexes))
    map_err portal_roles (in_roles (ensure_portal_roles x.roles (ambient.clock 0)))
    map_err seed (seed_admin x ambient state)
    pure state

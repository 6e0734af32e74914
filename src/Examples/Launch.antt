-- ===== src/Examples/Launch.antt =====
-- A start of the service on an empty database, with a relay and an administrator to seed.
use ch_api_authenticator.Startup.Launch.Lifetime.{lifetime_accounts}
use ch_api_authenticator.Base.{inl, map, ◌∷◌}
use ch_api_authenticator.Startup.Launch.Lifetime.{IsGuarded, Lifetime, runs}
use ch_api_authenticator.Base.Lists.{Distinct}
use ch_api_authenticator.Services.Relay.{missing_signing_key}
use ch_api_authenticator.Startup.Launch.{invalid_relay}
use ch_api_authenticator.Startup.Launch.Refusals.{IsUnwritten, launch-IsUnwritten}
use ch_api_authenticator.Service.History.{start}
use ch_api_authenticator.Service.History.{serves}
use ch_api_authenticator.State.{Ambient}
use ch_api_authenticator.Services.Relay.{options_of}
use ch_api_authenticator.Service.Requests.{serve}
use ch_api_authenticator.Service.History.Accounts.{AccountsAreSound}
use ch_api_authenticator.Repository.Users.{find_by_email, update}
use ch_api_authenticator.Services.Relay.{connected}
use ch_api_authenticator.Startup.{seed_admin}
use ch_api_authenticator.Startup.{create_administrator}
use ch_api_authenticator.Startup.{administrator_of}
use ch_api_authenticator.Services.Relay.{sign_relay_token}
use ch_api_authenticator.Repository.Roles.{ensure_portal_roles}
use ch_api_authenticator.Mongo.{is_duplicate_key}
use ch_api_authenticator.Domain.User.{normalize_email}
use ch_api_authenticator.Domain.Role.{portal_role}
use ch_api_authenticator.Repository.Indexes.{refresh_token_indexes}
use ch_api_authenticator.Repository.Indexes.{login_event_indexes}
use ch_api_authenticator.Repository.Indexes.{reset_token_indexes}
use ch_api_authenticator.Repository.Indexes.{role_indexes}
use ch_api_authenticator.Repository.Indexes.{user_indexes}
use ch_api_authenticator.Startup.Launch.{create_indexes}
use ch_api_authenticator.Config.{overridden}
use ch_api_authenticator.Services.Relay.{from_settings}
use ch_api_authenticator.Config.{rule}
use ch_api_authenticator.Config.{load_rate_limit}
use ch_api_authenticator.Config.{validate_secrets}
use ch_api_authenticator.Base.Text.{trim}
use ch_api_authenticator.Config.{optional}
use ch_api_authenticator.Config.{require}
use ch_api_authenticator.Config.{load_secrets}
use ch_api_authenticator.Config.{load}
use ch_api_authenticator.Exec.{◌>>=◌}
use ch_api_authenticator.Service.Requests.{delete_role}
use ch_api_authenticator.Startup.Launch.Lifetime.{created}
use mathlib.Core.List
use ch_api_authenticator.Exec.{ok}
use ch_api_authenticator.Examples.Scenario.{ambient, config, platform, secrets, world}
use ch_api_authenticator.Base.{[], if◌then◌else◌, none, refl, some, ◌*◌, ◌==◌, ◌||◌, ◌≡◌}
use ch_api_authenticator.Startup.Launch.Laws.{IsLaunched, launch-IsLaunched}
use ch_api_authenticator.Startup.Launch.{Host, launch, new_state, with_limiters}
use ch_api_authenticator.Config.{Environ, Settings}
use ch_api_authenticator.State.{AppState, World}
use ch_api_authenticator.Repository.Users
use ch_api_authenticator.Repository.Roles
use ch_api_authenticator.Domain.User.{new}

abbrev host : Host
host = record {
  build_http = ok tt;
  connect = λ uri. ok tt;
  create_index = λ index made. (ok tt, List.◌++◌ made (index ∷ []));
  create_index_law = λ index made. inl (refl, refl);
  rs256 = record { from_rsa_pem = λ pem. ok tt; encode = λ own pem. ok "signed" };
  now = 1000;
}

abbrev environ : Environ
environ name =
    if name == "MONGO_URI"
    then some "mongodb"
    else if name == "JWT_SECRET" || name == "INTERNAL_API_SECRET" || name == "MISSIVE_API_SECRET"
    then some "0123456789abcdef0123456789abcdef"
    else if name == "ADMIN_EMAIL"
    then some "root@x"
    else if name == "ADMIN_PASSWORD"
    then some "Root-password-1"
    else if name == "RELAY_JWT_PRIVATE_KEY"
    then some "pem"
    else none

abbrev settings : Settings
settings = record {
  config = config;
  secrets = record secrets {
    admin_email = some "root@x";
    admin_password = some "Root-password-1";
    relay_jwt_private_key = some "pem";
  };
  rate_limit = record {
    login = record { max = 5; window = 300 * 1000000000 };
    forgot = record { max = 3; window = 900 * 1000000000 };
    refresh = record { max = 30; window = 60 * 1000000000 };
  };
}

abbrev empty : World
empty = record world {
  users = record { docs = []; seed = 20 };
  roles = record { docs = []; seed = 20 };
  reset_tokens = record { docs = []; seed = 20 };
  refresh_tokens = record { docs = []; seed = 20 };
}

abbrev started : AppState
started =
    new_state platform settings none
      (connected (options_of host.rs256 host.now config.relay "signed"))

launch-started : (launch platform host ambient (ok config) environ empty).0 ≡ ok started
unfolding launch new_state ◌>>=◌ load load_secrets require optional trim validate_secrets
    load_rate_limit rule from_settings overridden create_indexes user_indexes role_indexes
    reset_token_indexes login_event_indexes refresh_token_indexes sign_relay_token with_limiters
    ensure_portal_roles Roles.insert portal_role is_duplicate_key seed_admin Users.find_by_email
    create_administrator Users.insert administrator_of normalize_email new
launch-started = refl

launch-IsLaunched_example :
    IsLaunched platform host ambient
      (ok config)
      environ
      "root@x"
      "Root-password-1"
      empty
      started
      (launch platform host ambient (ok config) environ empty).1
unfolding new_state
launch-IsLaunched_example =
    launch-IsLaunched platform host ambient (ok config) environ "root@x" "Root-password-1" empty
      started launch-started refl refl

abbrev Anything : Ambient → Type 0
Anything given = Unit {0}

-- The first start, and then a request.
abbrev served : World
served =
    (serve platform started ambient (delete_role "aa")
      (launch platform host ambient (ok config) environ empty).1).1

first_life : Lifetime platform Anything empty served
first_life =
    runs host ambient (ok config) environ started launch-started
      (serves ambient (delete_role "aa") tt start) created

lifetime_accounts_example :
    IsGuarded served
    × Distinct (map (λ d. d.email) served.users.docs)
    × AccountsAreSound platform served
lifetime_accounts_example = lifetime_accounts platform Anything empty served refl first_life

abbrev without_key : Environ
without_key name = if name == "RELAY_JWT_PRIVATE_KEY" then none else environ name

launch-IsUnwritten_example :
    IsUnwritten empty (launch platform host ambient (ok config) without_key empty).1
unfolding launch ◌>>=◌ load load_secrets require optional trim validate_secrets load_rate_limit rule
    from_settings overridden
launch-IsUnwritten_example =
    launch-IsUnwritten platform host ambient (ok config) without_key empty
      (invalid_relay missing_signing_key) refl refl

-- ===== src/Examples/Scenario.antt =====
-- A service with one account, an administrator's, and one request to it.
use ch_api_authenticator.Domain.Role.{sub}
use ch_api_authenticator.Domain.Role.{drive}
use ch_api_authenticator.Repository.Settings.{same_settings}
use ch_api_authenticator.Exec.{ok}
use ch_api_authenticator.Examples.Memory.{memory}
use ch_api_authenticator.Base.Text.{is_empty}
use ch_api_authenticator.Examples.Instances.{
  crypto, from_unary, from_unary-unary, governor_of, net, unary, unicode,
}
use ch_api_authenticator.Examples.Tokens.{crate_of}
use ch_api_authenticator.Base.{[], false, if◌then◌else◌, none, not, some, true, ◌==◌, ◌∷◌}
use ch_api_authenticator.Repository.Users.{Users, identify, same_account}
use ch_api_authenticator.Domain.User.{User, active}
use ch_api_authenticator.Repository.Roles.{Roles, same_role}
use ch_api_authenticator.Domain.Role.{Role}
use ch_api_authenticator.Repository.ResetTokens.{ResetToken, ResetTokens}
use ch_api_authenticator.Repository.RefreshTokens.{RefreshToken, RefreshTokens}
use ch_api_authenticator.Services.RateLimit.{RateLimitPolicy, RateLimitRule}
use ch_api_authenticator.Repository.LoginEvents.{LoginEvents, never_same}
use ch_api_authenticator.Services.Net.{Headers, v4}
use ch_api_authenticator.Config.{Config, Secrets, prod}
use ch_api_authenticator.Services.Jwt.{Claims}
use ch_api_authenticator.State.{Ambient, AppState, Platform, World}
use ch_api_authenticator.Repository.Users
use ch_api_authenticator.Repository.Roles
use ch_api_authenticator.Repository.RefreshTokens
use ch_api_authenticator.Repository.ResetTokens
use ch_api_authenticator.Repository.LoginEvents
use ch_api_authenticator.Repository.Settings

abbrev pub claims : Claims
claims = record {
  sub = unary 7;
  roles = "admin" ∷ [];
  ip = none;
  iss = "iss";
  aud = [];
  iat = 1000;
  exp = 1900;
}

abbrev pub platform : Platform
platform = record {
  unicode = unicode;
  compromised = [];
  is_email = λ email. not (is_empty email);
  iterate = λ errors. errors;
  to_hex = unary;
  parse_str = from_unary;
  parse_str-to_hex = from_unary-unary;
  rfc3339 = λ date. "date";
  crypto = crypto;
  net = net;
  governor = governor_of (ok tt);
  jwt = crate_of claims;
  users = memory Users.identify Users.same_account;
  roles = memory Roles.identify Roles.same_role;
  settings = memory Settings.identify Settings.same_settings;
  login_events = memory LoginEvents.identify LoginEvents.never_same;
  aggregate = λ since s. (ok [], s);
  text_before = λ a b. false;
  reset_tokens = memory ResetTokens.identify ResetTokens.same_hash;
  refresh_tokens = memory RefreshTokens.identify RefreshTokens.same_hash;
}

abbrev pub secrets : Secrets
secrets = record {
  jwt_secret = "0123456789abcdef0123456789abcdef";
  internal_api_secret = "0123456789abcdef0123456789abcdef";
  mongo_uri = "mongodb";
  admin_email = none;
  admin_password = none;
  missive_api_secret = "0123456789abcdef0123456789abcdef";
  relay_jwt_private_key = none;
}

abbrev pub config : Config
config = record {
  environment = prod;
  server = record { port = 3000; log_level = "info" };
  token = record {
    ttl_minutes = 15;
    cookie_name = "access";
    cookie_secure = false;
    refresh_ttl_days = 30;
    refresh_cookie_name = "refresh";
    issuer = "iss";
    audience_drive = "drive";
    audience_budgy = "budgy";
    cookie_domain = none;
  };
  registration = record { default_roles = [] };
  missive = record { url = "missive" };
  password_reset = record { url = "reset"; ttl_minutes = 30 };
  relay = record {
    enabled = true;
    host = "relay";
    port = 1883;
    client_id = "auth";
    identity = "auth";
    token_ttl_seconds = 60;
  };
}

abbrev limit_rule : RateLimitRule
limit_rule = record { max = 5; window = 300000000000 }

abbrev pub state : AppState
state = record {
  settings = record {
    config = config;
    secrets = secrets;
    rate_limit = record { login = limit_rule; forgot = limit_rule; refresh = limit_rule };
  };
  jwt = record { secret = "key"; ttl = 900; issuer = "iss"; audiences_by_role = [] };
  trusted_proxies = record { networks = [] };
  relay_connected = true;
}

abbrev pub headers : Headers
headers name =
    if name == "authorization"
    then some "Bearer token"
    else if name == "cookie"
    then some "refresh=r1"
    else if name == "x-internal-secret"
    then some "0123456789abcdef0123456789abcdef"
    else if name == "x-portal"
    then some "portail_drive"
    else none

abbrev pub ambient : Ambient
ambient = record {
  clock = λ n. 1000000;
  limiter_clock = 0;
  peer = v4 1;
  headers = headers;
  object_id = 9;
  token = "r2";
  salt = "salt";
  uuid = "uuid";
}

abbrev pub jane : User
jane = record {
  id = some 7;
  name = "Jane";
  email = "jane@x";
  password_hash = "Old-password-1";
  roles = "admin" ∷ [];
  status = active;
  whitelist_only = false;
  allowed_ips = [];
  terms_accepted_at = none;
  terms_version = none;
  created_at = 5;
  updated_at = 5;
}

abbrev pub viewer : Role
viewer = record { id = some 2; name = "viewer"; portal = drive; kind = sub; created_at = 5 }

abbrev pub refresh_token : RefreshToken
refresh_token = record {
  user_id = 7;
  family_id = 5;
  token_hash = "r1";
  expires_at = 2000000;
  revoked = false;
  created_at = 5;
}

abbrev pub reset_token : ResetToken
reset_token = record {
  user_id = 7;
  token_hash = "reset";
  expires_at = 2000000;
  used = false;
  created_at = 5;
}

abbrev no_limit : RateLimitPolicy
no_limit = record { quota = record { burst = 5; replenish_1_per = 60000000000 }; state = 0 }

abbrev pub world : World
world = record {
  users = record { docs = jane ∷ []; seed = 20 };
  roles = record { docs = viewer ∷ []; seed = 20 };
  settings = record { docs = []; seed = 20 };
  login_events = record { docs = []; seed = 20 };
  reset_tokens = record { docs = reset_token ∷ []; seed = 20 };
  refresh_tokens = record { docs = refresh_token ∷ []; seed = 20 };
  login_limiter = no_limit;
  forgot_limiter = no_limit;
  refresh_limiter = no_limit;
  emails = [];
  published = [];
  indexes = [];
}

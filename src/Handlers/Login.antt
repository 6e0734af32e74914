-- ===== src/Handlers/Login.antt =====
-- handlers/login.rs.
pub mod Laws
pub mod Steps
pub mod Opens
use ch_api_authenticator.Base.{
  ℕ, String, ◌++◌, ◌==◌, Bool, true, false, not, ◌&&◌, Option, none, some, List, [], ◌∷◌, map,
  if◌then◌else◌,
}
use mathlib.Core.List
use ch_api_authenticator.Base.Lists.{any, contains, filter}
use ch_api_authenticator.Base.Text.{is_empty}
use ch_api_authenticator.Error.{
  AppError, JsonRejection, from_rejection, unauthorized, account_pending, account_disabled,
  device_not_allowed,
}
use ch_api_authenticator.Exec.{
  Result, ok, err, Exec, pure, raise, lift, lift_err, attempt, guard, ◌>>=◌, ◌>>◌,
}
use ch_api_authenticator.Domain.User.{
  ObjectId, AccountStatus, active, pending_validation, disabled, User, normalize_email,
}
use ch_api_authenticator.Domain.Role.{all_portals, role_name}
use ch_api_authenticator.Repository.Users.{find_by_email, add_allowed_ip}
use ch_api_authenticator.Repository.LoginEvents.{record_login}
use ch_api_authenticator.Services.Net.{IpAddr}
use ch_api_authenticator.Services.ClientIp.{resolve}
use ch_api_authenticator.Services.Whitelist.{ip_allowed}
use ch_api_authenticator.Validation.{ValidationError, require, check}
use ch_api_authenticator.State.{
  Platform, AppState, Ambient, Handler, in_users, in_login_events, or_internal, enforce_login,
}
use ch_api_authenticator.Handlers.Session.Create.{Session, create_session}

pub record LoginRequest : Type 0 where
  pub email : String
  pub password : String

abbrev pub is_portal_name : String → Bool
is_portal_name role = contains role (map role_name all_portals)

-- The `match user.status`.
abbrev pub require_active : AccountStatus → Result AppError (Unit {0})
require_active active = ok tt
require_active pending_validation = err account_pending
require_active disabled = err account_disabled

module _ (x : Platform) (state : AppState) (ambient : Ambient) where
  abbrev pub login_errors : LoginRequest → List ValidationError
  login_errors request =
      List.◌++◌ (require "email" "format d'email invalide" (x.is_email request.email))
        (require "length" "mot de passe requis" (not (is_empty request.password)))

  -- A password is verified against a dummy hash where there is no account; its answer is dropped.
  abbrev pub authenticate : String → Option User → Result AppError User
  authenticate password none = err unauthorized
  authenticate password (some user) =
      if x.crypto.verify_password password user.password_hash then ok user else err unauthorized

  -- An address that is new to an account with no whitelist is added to its list.
  remember_ip : IpAddr → User → Option ObjectId → Handler (Unit {0})
  remember_ip client_ip user none = pure tt
  remember_ip client_ip user (some id) =
      if ip_allowed x.net client_ip user.allowed_ips then pure tt else do
        attempt {F = AppError}
            (in_users (add_allowed_ip x.users (ambient.clock 0) id (x.net.show_ip client_ip)))
        pure tt

  token_ip_of : IpAddr → User → Handler (Option String)
  unfolding remember_ip
  token_ip_of client_ip user =
      if user.whitelist_only
      then (if ip_allowed x.net client_ip user.allowed_ips
          then pure (some (x.net.show_ip client_ip))
          else raise device_not_allowed)
      else do remember_ip client_ip user user.id; pure none

  record_event : User → Option ObjectId → Handler (Unit {0})
  record_event user none = pure tt
  record_event user (some user_id) = do
    attempt {F = AppError} (
        in_login_events (
          record_login x.login_events (ambient.clock 1) user_id (filter is_portal_name user.roles)))
    pure tt

  unfoldable pub login : Result JsonRejection LoginRequest → Handler Session
  unfolding token_ip_of record_event
  login payload = do
    request ← lift_err from_rejection payload
    lift (check x.iterate (login_errors request))
    let client_ip = resolve x.net state.trusted_proxies ambient.peer ambient.headers
    enforce_login x.governor ambient.limiter_clock
        (x.net.show_ip client_ip ++ "|" ++ normalize_email x.unicode.to_lowercase request.email)
    found ← or_internal (in_users (find_by_email x.users x.unicode.to_lowercase request.email))
    user ← lift (authenticate request.password found)
    lift (require_active user.status)
    token_ip ← token_ip_of client_ip user
    record_event user user.id
    create_session x state ambient 2 user token_ip

-- ===== src/Handlers/Session.antt =====
-- handlers/session.rs: the session that a login opens, its renewal and its end.
pub mod Steps
pub mod Create
pub mod Ends
pub mod Laws
use ch_api_authenticator.Base.{ℕ, ◌*◌, String, Bool, true, false, Option, none, some, if◌then◌else◌}
use ch_api_authenticator.Error.{AppError, invalid_token, internal}
use ch_api_authenticator.Exec.{
  Result, ok, err, Exec, pure, raise, lift, attempt, ok_or, ◌>>=◌, ◌>>◌,
}
use ch_api_authenticator.Domain.User.{ObjectId, User}
use ch_api_authenticator.Mongo.{MongoError}
use ch_api_authenticator.Repository.Users.{find_by_id}
use ch_api_authenticator.Repository.RefreshTokens.{
  RefreshToken, RotationOutcome, rotated, reuse_detected, unknown, consume_for_rotation,
  revoke_family, find_by_hash,
}
use ch_api_authenticator.Services.Net.{IpAddr}
use ch_api_authenticator.Services.ClientIp.{resolve}
use ch_api_authenticator.Services.Whitelist.{ip_allowed}
use ch_api_authenticator.Config.{cookie_secure_effective}
use ch_api_authenticator.State.{
  Platform, AppState, Ambient, World, Handler, in_users, in_refresh_tokens, or_internal,
  enforce_refresh, seconds,
}
use ch_api_authenticator.Handlers.Cookies.{build_cookie, cookie_value}
use Create.{Session, create_session_in_family}

module _ (x : Platform) (state : AppState) (ambient : Ambient) where
  abbrev revoke_and_reject : ObjectId → Handler RefreshToken
  revoke_and_reject family_id = do
    attempt (in_refresh_tokens (revoke_family x.refresh_tokens family_id))
    raise invalid_token

  -- The `match outcome` of `refresh`: a token that was rotated before takes its family with it.
  pub consumed_token : RotationOutcome → Handler RefreshToken
  consumed_token (rotated token) = pure token
  consumed_token (reuse_detected token) = revoke_and_reject token.family_id
  consumed_token unknown = raise invalid_token

  existing_user : RefreshToken → Option User → Handler User
  existing_user token (some user) = pure user
  existing_user token none = do
    attempt (in_refresh_tokens (revoke_family x.refresh_tokens token.family_id))
    raise invalid_token

  token_ip_of : IpAddr → User → Result AppError (Option String)
  token_ip_of client_ip user =
      if user.whitelist_only
      then (if ip_allowed x.net client_ip user.allowed_ips
          then ok (some (x.net.show_ip client_ip))
          else err invalid_token)
      else ok none

  unfoldable pub refresh : Handler Session
  unfolding consumed_token existing_user token_ip_of
  refresh = do
    let client_ip = resolve x.net state.trusted_proxies ambient.peer ambient.headers
    enforce_refresh x.governor ambient.limiter_clock (x.net.show_ip client_ip)
    token ← lift (
        ok_or (cookie_value ambient.headers state.settings.config.token.refresh_cookie_name)
          invalid_token)
    outcome ← or_internal (
        in_refresh_tokens
          (consume_for_rotation x.refresh_tokens (ambient.clock 0) (x.crypto.hash_token token)))
    consumed ← consumed_token outcome
    found ← or_internal (in_users (find_by_id x.users consumed.user_id))
    user ← existing_user consumed found
    token_ip ← lift (token_ip_of client_ip user)
    create_session_in_family x state (seconds (ambient.clock 1)) (ambient.clock 2) ambient.token
        user token_ip consumed.family_id

  revoke_found : Result MongoError (Option RefreshToken) → Handler (Unit {0})
  revoke_found (ok (some found)) = do
    attempt {F = AppError} (in_refresh_tokens (revoke_family x.refresh_tokens found.family_id))
    pure tt
  revoke_found _ = pure tt

  end_session : Option String → Handler (Unit {0})
  unfolding revoke_found
  end_session none = pure tt
  end_session (some token) = do
    found ← attempt (in_refresh_tokens (find_by_hash x.refresh_tokens (x.crypto.hash_token token)))
    revoke_found found

  -- The two cookies that `logout` sets, empty and expired.
  unfoldable pub logout : Handler (String × String)
  unfolding end_session
  logout = do
    let token = state.settings.config.token
    end_session (cookie_value ambient.headers token.refresh_cookie_name)
    let secure = cookie_secure_effective state.settings.config
    pure (
      build_cookie token.cookie_name "" 0 secure token.cookie_domain,
      build_cookie token.refresh_cookie_name "" 0 secure token.cookie_domain,
    )

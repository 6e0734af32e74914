-- ===== src/Handlers/Session/Create.antt =====
-- `create_session_in_family` of handlers/session.rs.
pub mod Laws
use ch_api_authenticator.Base.{ℕ, ◌+◌, ◌*◌, String, Option}
use ch_api_authenticator.Error.{internal}
use ch_api_authenticator.Exec.{pure, lift, ok_or, ◌>>=◌, ◌>>◌}
use ch_api_authenticator.Domain.User.{ObjectId, DateTime, User}
use ch_api_authenticator.Repository.Dates.{wrap64}
use ch_api_authenticator.Repository.RefreshTokens.{create}
use ch_api_authenticator.Services.Jwt.{issue}
use ch_api_authenticator.Config.{cookie_secure_effective}
use ch_api_authenticator.State.{
  Platform, AppState, Ambient, Handler, in_refresh_tokens, or_internal, expect, seconds,
}
use ch_api_authenticator.Handlers.Cookies.{build_cookie}

-- The body's `token_type` is always "Bearer".
pub record Session : Type 0 where
  pub access_token : String
  pub expires_in : ℕ
  pub access_cookie : String
  pub refresh_cookie : String

-- In seconds.
abbrev pub refresh_ttl : ℕ → ℕ
refresh_ttl refresh_ttl_days = wrap64 (wrap64 (refresh_ttl_days * 24) * 3600)

module _ (x : Platform) (state : AppState) where
  abbrev pub session_of : String → String → Session
  session_of access_token refresh_token =
      let config = state.settings.config in
      let token = config.token in
      let secure = cookie_secure_effective config in
      record {
        access_token = access_token;
        expires_in = state.jwt.ttl;
        access_cookie =
            build_cookie token.cookie_name access_token state.jwt.ttl secure token.cookie_domain;
        refresh_cookie =
            build_cookie token.refresh_cookie_name refresh_token
              (refresh_ttl token.refresh_ttl_days) secure token.cookie_domain;
      }

  -- The access token is issued at a time in seconds, and the refresh token created at one in
  -- milliseconds.
  unfoldable pub create_session_in_family :
      ℕ → DateTime → String → User → Option String → ObjectId → Handler Session
  create_session_in_family issued_at created_at refresh_token user token_ip family_id = do
    user_id ← lift (expect user.id)
    access_token ←
        lift (ok_or (issue x.jwt x.to_hex state.jwt issued_at user_id user.roles token_ip) internal)
    or_internal (
        in_refresh_tokens (
          create x.refresh_tokens created_at user_id family_id (x.crypto.hash_token refresh_token)
            (refresh_ttl state.settings.config.token.refresh_ttl_days)))
    pure (session_of access_token refresh_token)

  -- `create_session`: a new family.
  unfoldable pub create_session : Ambient → ℕ → User → Option String → Handler Session
  create_session ambient reading user token_ip =
      create_session_in_family (seconds (ambient.clock reading)) (ambient.clock (reading + 1))
        ambient.token user token_ip ambient.object_id

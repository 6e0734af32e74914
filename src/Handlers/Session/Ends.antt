-- ===== src/Handlers/Session/Ends.antt =====
-- How a family of refresh tokens ends: by a token that is used twice, or by a logout.
use ch_api_authenticator.Exec.{Result}
use ch_api_authenticator.Base.{Option, none, refl}
use ch_api_authenticator.Mongo.{MongoError}
use ch_api_authenticator.Handlers.Session.{revoke_found}
use ch_api_authenticator.Handlers.Session.{end_session}
use ch_api_authenticator.Handlers.Session.{consumed_token}
use ch_api_authenticator.Repository.RefreshTokens.Calls.{none_live, revoke_family-ok}
use ch_api_authenticator.Handlers.Session.{logout, refresh}
use ch_api_authenticator.Error.{invalid_token}
use ch_api_authenticator.Exec.{err, ok}
use ch_api_authenticator.Services.RateLimit.{enforce}
use ch_api_authenticator.Config.{cookie_secure_effective}
use ch_api_authenticator.Handlers.Session.Laws.{client_ip}
use ch_api_authenticator.Handlers.Cookies.{build_cookie, cookie_value}
use ch_api_authenticator.Mongo.{Store}
use ch_api_authenticator.Repository.RefreshTokens.{
  RefreshToken, consume_for_rotation, find_by_hash, is_live_in_family, reuse_detected,
  revoke_family,
}
use ch_api_authenticator.Base.{String, arith, some, true, ℕ, ◌≡◌}
use ch_api_authenticator.State.{Ambient, AppState, Platform, World, enforce_refresh}
use ch_api_authenticator.Exec.{◌>>=◌}

module _ (x : Platform) (state : AppState) (ambient : Ambient) where
  -- The store after the search for the presented token.
  abbrev pub consumed_in : String → World → Store RefreshToken
  consumed_in token w =
      (consume_for_rotation x.refresh_tokens (ambient.clock 0) (x.crypto.hash_token token)
        w.refresh_tokens).1

  -- A token that was rotated before is refused, and no token of its family is live afterwards: given
  -- that the limiter admits the request, that the search for the token finds it used, and that the
  -- revocation reaches the database.
  pub refresh-reuse :
      (w : World) (token : String) (stored : RefreshToken) (n : ℕ)
      → (enforce x.governor ambient.limiter_clock
          (x.net.show_ip (client_ip x state ambient))
          w.refresh_limiter).0
        ≡ ok tt
      → cookie_value ambient.headers state.settings.config.token.refresh_cookie_name ≡ some token
      → (consume_for_rotation x.refresh_tokens
          (ambient.clock 0)
          (x.crypto.hash_token token)
          w.refresh_tokens).0
        ≡ ok (reuse_detected stored)
      → (revoke_family x.refresh_tokens stored.family_id (consumed_in token w)).0 ≡ ok n
      → ((refresh x state ambient w).0 ≡ err invalid_token)
        × (none_live
              (is_live_in_family stored.family_id)
              (refresh x state ambient w).1.refresh_tokens.docs
            ≡ true)
  unfolding refresh enforce_refresh consumed_token ◌>>=◌
  refresh-reuse w token stored n admitted presented reused revoked =
      ground
        (arith, revoke_family-ok x.refresh_tokens stored.family_id (consumed_in token w) n revoked)

  abbrev found_in : String → World → Store RefreshToken
  found_in token w = (find_by_hash x.refresh_tokens (x.crypto.hash_token token) w.refresh_tokens).1

  revoke_found-ok :
      (w : World) (found : Result MongoError (Option RefreshToken))
      → (revoke_found x state ambient found w).0 ≡ ok tt
  unfolding revoke_found ◌>>=◌
  revoke_found-ok w (ok none) = refl
  revoke_found-ok w (ok (some token)) = refl
  revoke_found-ok w (err e) = refl

  end_session-ok :
      (w : World) (token : Option String) → (end_session x state ambient token w).0 ≡ ok tt
  unfolding end_session ◌>>=◌
  end_session-ok w none = refl
  end_session-ok w (some token) = revoke_found-ok _ _

  -- A logout succeeds whatever happens, and both cookies that it sets are empty, with an age of 0.
  pub logout-ok :
      (w : World)
      → (logout x state ambient w).0
        ≡ ok (
          build_cookie state.settings.config.token.cookie_name "" 0
              (cookie_secure_effective state.settings.config)
              state.settings.config.token.cookie_domain,
          build_cookie state.settings.config.token.refresh_cookie_name "" 0
              (cookie_secure_effective state.settings.config)
              state.settings.config.token.cookie_domain,
        )
  unfolding logout ◌>>=◌
  logout-ok w = ground (
    arith,
    end_session-ok w (cookie_value ambient.headers state.settings.config.token.refresh_cookie_name),
  )

  -- After a logout no token of the presented token's family is live: given that the search finds
  -- the token and that the revocation reaches the database.
  pub logout-none_live :
      (w : World) (token : String) (stored : RefreshToken) (n : ℕ)
      → cookie_value ambient.headers state.settings.config.token.refresh_cookie_name ≡ some token
      → (find_by_hash x.refresh_tokens (x.crypto.hash_token token) w.refresh_tokens).0
        ≡ ok (some stored)
      → (revoke_family x.refresh_tokens stored.family_id (found_in token w)).0 ≡ ok n
      → none_live
          (is_live_in_family stored.family_id)
          (logout x state ambient w).1.refresh_tokens.docs
        ≡ true
  unfolding logout end_session revoke_found ◌>>=◌
  logout-none_live w token stored n presented found revoked =
      ground
        (arith, revoke_family-ok x.refresh_tokens stored.family_id (found_in token w) n revoked)

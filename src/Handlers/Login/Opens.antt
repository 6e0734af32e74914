-- ===== src/Handlers/Login/Opens.antt =====
-- When a login succeeds.
use ch_api_authenticator.Handlers.Login.{require_active}
use ch_api_authenticator.Handlers.Login.{token_ip_of}
use ch_api_authenticator.Handlers.Login.{remember_ip}
use ch_api_authenticator.Handlers.Login.{record_event}
use ch_api_authenticator.Handlers.Login.{login}
use ch_api_authenticator.Base.{◌++◌}
use ch_api_authenticator.Handlers.Login.Laws.{login_ip}
use ch_api_authenticator.Services.Jwt.{issue}
use ch_api_authenticator.Services.Whitelist.{ip_allowed}
use ch_api_authenticator.Error.{internal}
use ch_api_authenticator.Repository.Users.{find_by_email}
use ch_api_authenticator.Handlers.Session.Create.{
  create_session, create_session_in_family, refresh_ttl, session_of,
}
use ch_api_authenticator.Exec.Laws.{bind-run}
use ch_api_authenticator.Validation.{ValidationError, check}
use ch_api_authenticator.Repository.RefreshTokens.{RefreshToken, create}
use ch_api_authenticator.Domain.User.{ObjectId, User, active, normalize_email}
use ch_api_authenticator.Mongo.{MongoError, Store}
use ch_api_authenticator.Handlers.Login.{LoginRequest, login_errors}
use ch_api_authenticator.Exec.{Exec, ok, ok_or, relabel, ◌>>=◌}
use ch_api_authenticator.Base.{
  Bool, List, Option, String, [], ap, arith, if◌then◌else◌, none, not, refl, some, true, ◌||◌, ◌∙◌,
  ◌∷◌, ◌≡◌,
}
use ch_api_authenticator.State.{Ambient, AppState, Platform, World, enforce_login, seconds}

check-nil :
    (iterate : List ValidationError → List ValidationError) (errors : List ValidationError)
    → errors ≡ []
    → check iterate errors ≡ ok tt
unfolding check
check-nil iterate [] e = refl
check-nil iterate (error ∷ errors) e = cc

module _ (x : Platform) (state : AppState) (ambient : Ambient) where
  -- The address that the access token of an account is bound to.
  abbrev pub bound_ip : User → Option String
  bound_ip user =
      if user.whitelist_only then some (x.net.show_ip (login_ip x state ambient)) else none

  abbrev pub may_enter : User → Bool
  may_enter user =
      not user.whitelist_only || ip_allowed x.net (login_ip x state ambient) user.allowed_ips

  remember_ip-run :
      (user : User) (own : Option ObjectId) (w : World)
      → ((remember_ip x state ambient (login_ip x state ambient) user own w).0 ≡ ok tt)
        × ((remember_ip x state ambient (login_ip x state ambient) user own w).1.refresh_tokens
            ≡ w.refresh_tokens)
  unfolding remember_ip ◌>>=◌
  remember_ip-run user none w = (refl, refl)
  remember_ip-run user (some id) w = ground arith

  token_ip_of-run :
      (user : User) (w : World)
      → may_enter user ≡ true
      → ((token_ip_of x state ambient (login_ip x state ambient) user w).0 ≡ ok (bound_ip user))
        × ((token_ip_of x state ambient (login_ip x state ambient) user w).1.refresh_tokens
            ≡ w.refresh_tokens)
  unfolding token_ip_of ◌>>=◌
  token_ip_of-run user w e = ground (arith, remember_ip-run user user.id w)

  record_event-run :
      (user : User) (own : Option ObjectId) (w : World)
      → ((record_event x state ambient user own w).0 ≡ ok tt)
        × ((record_event x state ambient user own w).1.refresh_tokens ≡ w.refresh_tokens)
  unfolding record_event ◌>>=◌
  record_event-run user none w = (refl, refl)
  record_event-run user (some id) w = (refl, refl)

  -- The call that stores the refresh token of a login.
  abbrev pub stores_token : ObjectId → Exec (Store RefreshToken) MongoError (Unit {0})
  stores_token id =
      create x.refresh_tokens (ambient.clock 3) id ambient.object_id
        (x.crypto.hash_token ambient.token)
        (refresh_ttl state.settings.config.token.refresh_ttl_days)

  create_session-run :
      (user : User) (id : ObjectId) (token : String) (v w : World)
      → user.id ≡ some id
      → issue x.jwt x.to_hex state.jwt (seconds (ambient.clock 2)) id user.roles (bound_ip user)
        ≡ some token
      → v.refresh_tokens ≡ w.refresh_tokens
      → (stores_token id w.refresh_tokens).0 ≡ ok tt
      → (create_session x state ambient 2 user (bound_ip user) v).0
        ≡ ok (session_of x state token ambient.token)
  unfolding create_session create_session_in_family
  create_session-run user id token v w identified issued same stored =
      ap (λ r. r.0)
        (bind-run _ _ v (ap (λ o. ok_or o internal) identified)
          ∙ bind-run _ _ v (ap (λ o. ok_or o internal) issued)
          ∙ bind-run _ _ v (
              ap (λ s. relabel (λ (e : MongoError). internal) (stores_token id s).0) same
              ∙ ap (relabel (λ (e : MongoError). internal)) stored))

  -- A login succeeds, with the session that belongs to it, if its email and password have the right
  -- form, the limiter admits it, the search finds an active account with that password, the
  -- account allows the address, the token crate signs, and the new refresh token is stored. The
  -- database need not take the address or the event of the login.
  pub login-opens :
      (w : World) (request : LoginRequest) (user : User) (id : ObjectId) (token : String)
      → login_errors x state ambient request ≡ []
      → (enforce_login x.governor ambient.limiter_clock
          (x.net.show_ip (login_ip x state ambient)
            ++ "|"
            ++ normalize_email x.unicode.to_lowercase request.email)
          w).0
        ≡ ok tt
      → (find_by_email x.users x.unicode.to_lowercase request.email w.users).0 ≡ ok (some user)
      → x.crypto.verify_password request.password user.password_hash ≡ true
      → user.status ≡ active
      → may_enter user ≡ true
      → user.id ≡ some id
      → issue x.jwt x.to_hex state.jwt (seconds (ambient.clock 2)) id user.roles (bound_ip user)
        ≡ some token
      → (stores_token id w.refresh_tokens).0 ≡ ok tt
      → (login x state ambient (ok request) w).0 ≡ ok (session_of x state token ambient.token)
  unfolding login enforce_login
  login-opens w request user id token checks admitted found verified is_active may identified issued
        stored =
      let run = λ (v : World). token_ip_of-run user v may in
      ap (λ r. r.0)
        (bind-run _ _ w refl
          ∙ bind-run _ _ w (check-nil x.iterate _ checks)
          ∙ bind-run _ _ w admitted
          ∙ bind-run _ _ _ (ap (relabel (λ (e : MongoError). internal)) found)
          ∙ bind-run _ _ _ (rw verified)
          ∙ bind-run _ _ _ (ap require_active is_active)
          ∙ bind-run _ _ _ (run _).0
          ∙ bind-run _ _ _ (record_event-run user user.id _).0)
      ∙ create_session-run user id token _ w identified issued
          ((record_event-run user user.id _).1 ∙ (run _).1) stored

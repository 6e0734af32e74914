-- ===== src/Handlers/Session/Steps.antt =====
-- The handlers of handlers/session.rs as runs of the policy's steps.
use ch_api_authenticator.Service.Policy.{nothing_given}
use ch_api_authenticator.Service.Policy.{Given}
use ch_api_authenticator.Handlers.Session.{token_ip_of}
use ch_api_authenticator.Handlers.Session.{find_by_id}
use ch_api_authenticator.Mongo.Docs.{modify_first}
use ch_api_authenticator.Exec.{lift}
use ch_api_authenticator.Repository.RefreshTokens.{is_usable, revoke}
use ch_api_authenticator.Exec.Laws.{invert_run, ok_or-eq-ok, relabel-eq-ok}
use ch_api_authenticator.Base.Lists.{find}
use ch_api_authenticator.Handlers.Cookies.{cookie_value}
use ch_api_authenticator.Repository.RefreshTokens.Calls.{consume-rotated}
use ch_api_authenticator.Handlers.Session.Laws.{client_ip, consumed_token-eq-ok}
use ch_api_authenticator.Base.{ap, subst, sym, ◌∙◌, ◌≡◌}
use ch_api_authenticator.State.{World, enforce_refresh, in_users, or_internal, seconds}
use ch_api_authenticator.Service.Policy.{Steps}
use ch_api_authenticator.Handlers.Session.Create.{Session}
use ch_api_authenticator.Service.Runs.{Runs-raise}
use ch_api_authenticator.Service.Runs.{Runs-pure}
use ch_api_authenticator.Service.Runs.{Runs-map_err}
use ch_api_authenticator.Service.Runs.{Runs-enforce_refresh}
use ch_api_authenticator.Service.Runs.{Runs-attempt}
use ch_api_authenticator.Service.Runs.{Runs-lift}
use ch_api_authenticator.Service.Runs.{Runs-bind}
use ch_api_authenticator.Handlers.Session.{revoke_found}
use ch_api_authenticator.Handlers.Session.{existing_user}
use ch_api_authenticator.Handlers.Session.{end_session}
use ch_api_authenticator.Handlers.Session.{consumed_token}
use ch_api_authenticator.Handlers.Session.{logout, refresh}
use ch_api_authenticator.Error.{invalid_token}
use ch_api_authenticator.Service.Calls.{find_by_id-Runs}
use ch_api_authenticator.Handlers.Session.Create.{create_session, create_session_in_family}
use ch_api_authenticator.Service.Calls.Stores.{
  create-Runs, find_by_hash-Runs, revoke_family-Runs, rotation-Runs,
}
use ch_api_authenticator.Service.Runs.{Runs}
use ch_api_authenticator.Exec.{Result, attempt, err, ok, ◌>>=◌}
use ch_api_authenticator.Repository.RefreshTokens.{
  RefreshToken, RotationOutcome, reuse_detected, revoke_family, rotated, unknown,
}
use ch_api_authenticator.Base.{Option, String, none, some, ℕ}
use ch_api_authenticator.Mongo.{MongoError}
use ch_api_authenticator.Domain.User.{DateTime, ObjectId, User}
use ch_api_authenticator.State.{Ambient, AppState, Handler, Platform, in_refresh_tokens}

module _ (x : Platform) (state : AppState) (ambient : Ambient) where
  -- What follows in `refresh` on the token that was consumed.
  renew : RefreshToken → Handler Session
  renew consumed = do
    found ← or_internal (in_users (find_by_id x.users consumed.user_id))
    user ← existing_user x state ambient consumed found
    token_ip ← lift (token_ip_of x state ambient (client_ip x state ambient) user)
    create_session_in_family x state (seconds (ambient.clock 1)) (ambient.clock 2) ambient.token
        user token_ip consumed.family_id

module _ {x : Platform} {state : AppState} {ambient : Ambient} {given : Given} where
  pub create_session_in_family-Runs :
      (issued_at : ℕ) (created_at : DateTime) (user : User) (token_ip : Option String)
      (family_id : ObjectId)
      → Runs x state ambient given (
          create_session_in_family x state issued_at created_at ambient.token user token_ip
            family_id)
  unfolding create_session_in_family
  create_session_in_family-Runs issued_at created_at user token_ip family_id =
      Runs-lift λ user_id _. Runs-lift λ _ _.
        Runs-bind (Runs-map_err _ (create-Runs created_at user_id family_id _)) λ _. Runs-pure _

  pub create_session-Runs :
      (reading : ℕ) (user : User) (token_ip : Option String)
      → Runs x state ambient given (create_session x state ambient reading user token_ip)
  unfolding create_session
  create_session-Runs reading user token_ip =
      create_session_in_family-Runs _ _ user token_ip ambient.object_id

  revoke-Runs :
      {A : Type 0} (family_id : ObjectId) (f : Result MongoError ℕ → Handler A)
      → ((r : Result MongoError ℕ) → Runs x state ambient given (f r))
      → Runs x state ambient given
          (attempt (in_refresh_tokens (revoke_family x.refresh_tokens family_id)) >>= f)
  revoke-Runs family_id f k = Runs-bind (Runs-attempt (revoke_family-Runs family_id)) k

  consumed_token-Runs :
      (outcome : RotationOutcome)
      → Runs x state ambient given (consumed_token x state ambient outcome)
  unfolding consumed_token
  consumed_token-Runs (rotated token) = Runs-pure token
  consumed_token-Runs (reuse_detected token) =
      revoke-Runs token.family_id _ λ _. Runs-raise invalid_token
  consumed_token-Runs unknown = Runs-raise invalid_token

  existing_user-Runs :
      (token : RefreshToken) (found : Option User)
      → Runs x state ambient given (existing_user x state ambient token found)
  unfolding existing_user
  existing_user-Runs token (some user) = Runs-pure user
  existing_user-Runs token none = revoke-Runs token.family_id _ λ _. Runs-raise invalid_token

  renew-Runs :
      (consumed : RefreshToken) → Runs x state ambient given (renew x state ambient consumed)
  unfolding renew
  renew-Runs consumed = Runs-bind (Runs-map_err _ (find_by_id-Runs _)) λ found.
      Runs-bind (existing_user-Runs consumed found) λ user.
        Runs-lift λ token_ip _. create_session_in_family-Runs _ _ user token_ip consumed.family_id

  pub refresh-Runs : Runs x state ambient given (refresh x state ambient)
  unfolding refresh renew
  refresh-Runs = Runs-bind (Runs-enforce_refresh _ _) λ _. Runs-lift λ token _.
      Runs-bind (Runs-map_err _ (rotation-Runs _ _))
        λ outcome. Runs-bind (consumed_token-Runs outcome) renew-Runs

  revoke_found-Runs :
      (found : Result MongoError (Option RefreshToken))
      → Runs x state ambient given (revoke_found x state ambient found)
  unfolding revoke_found
  revoke_found-Runs (ok (some found)) = revoke-Runs found.family_id _ λ _. Runs-pure tt
  revoke_found-Runs (ok none) = Runs-pure tt
  revoke_found-Runs (err e) = Runs-pure tt

  end_session-Runs :
      (token : Option String) → Runs x state ambient given (end_session x state ambient token)
  unfolding end_session
  end_session-Runs none = Runs-pure tt
  end_session-Runs (some token) = Runs-bind (Runs-attempt (find_by_hash-Runs _)) revoke_found-Runs

  pub logout-Runs : Runs x state ambient given (logout x state ambient)
  unfolding logout
  logout-Runs = Runs-bind (end_session-Runs _) λ _. Runs-pure _

module _ (x : Platform) (state : AppState) (ambient : Ambient) where
  -- A successful renewal: the presented token is revoked first, and what follows is allowed.
  pub record IsRotation (w w' : World) : Type 0 where
    pub token : String
    pub stored : RefreshToken
    pub between : World
    pub presented :
        cookie_value ambient.headers state.settings.config.token.refresh_cookie_name ≡ some token
    pub usable :
        find (is_usable (x.crypto.hash_token token) (ambient.clock 0)) w.refresh_tokens.docs
        ≡ some stored
    pub revoked :
        between.refresh_tokens.docs
        ≡ modify_first
            (is_usable (x.crypto.hash_token token) (ambient.clock 0))
            revoke
            w.refresh_tokens.docs
    pub rest : Steps x state ambient (nothing_given w) between w'

  pub refresh-IsRotation :
      (w : World) (session : Session)
      → (refresh x state ambient w).0 ≡ ok session
      → IsRotation w (refresh x state ambient w).1
  unfolding refresh enforce_refresh renew
  refresh-IsRotation w session e = invert_run _ _ _ e λ _ _ r₁ e₁.
      invert_run _ _ _ e₁ λ token presented r₂ e₂. invert_run _ _ _ e₂ λ outcome took r₃ e₃.
        invert_run _ _ _ e₃ λ consumed was r₄ e₄.
          let (is_rotated, same) = consumed_token-eq-ok x state ambient outcome _ consumed was in
          let (usable, revoked) =
            consume-rotated x.refresh_tokens _ _ w.refresh_tokens consumed
              (relabel-eq-ok _ _ took ∙ ap ok is_rotated) in
          record {
            token = token;
            stored = consumed;
            between = _;
            presented = ok_or-eq-ok _ invalid_token presented;
            usable = usable;
            revoked = ap (λ v. v.refresh_tokens.docs) same ∙ revoked;
            rest =
                subst (Steps x state ambient (nothing_given w) _)
                  (sym (ap (λ r. r.1) (r₁ ∙ r₂ ∙ r₃ ∙ r₄)))
                  ((renew-Runs {x = x} {state = state} {ambient = ambient} consumed).at _);
          }

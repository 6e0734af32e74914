-- ===== src/Handlers/Me/Laws.antt =====
-- What the change of one's own email writes.
use ch_api_authenticator.Mongo.Docs.{modify_first}
use ch_api_authenticator.Exec.Laws.{
  guard-eq-ok, invert_run, ok_injective, ok_or-eq-ok, relabel-eq-ok,
}
use ch_api_authenticator.Repository.Users.Calls.{find_by_id-docs, repository_error-eq-ok, update-ok}
use ch_api_authenticator.Handlers.Request.{email_written, signed_in}
use ch_api_authenticator.Middleware.Auth.{auth_user}
use ch_api_authenticator.Base.Lists.{any}
use ch_api_authenticator.Mongo.{Store}
use ch_api_authenticator.Exec.{Result, err, ok}
use ch_api_authenticator.Repository.Users.{
  RepositoryError, database, duplicate_email, has_id, update, update_email, with_email,
}
use ch_api_authenticator.Domain.User.{ObjectId, User, normalize_email}
use ch_api_authenticator.Handlers.Me.{
  MeResponse, UpdateMeRequest, load_user, parse_user_id, update_me,
}
use ch_api_authenticator.Services.Jwt.{Claims}
use ch_api_authenticator.Base.{
  Bool, Option-cases, String, ap, arith, false, inl, inr, refl, some, sym, true, ℕ, ◌∙◌, ◌≡◌,
}
use ch_api_authenticator.Error.{AppError, JsonRejection, invalid_token}
use ch_api_authenticator.State.{Ambient, AppState, Platform, World, seconds}
use ch_api_authenticator.Exec.{◌>>=◌}

module _ (x : Platform) (state : AppState) (ambient : Ambient) where
  update_email-ok :
      (now : ℕ) (id : ObjectId) (email : String) (s : Store User)
      → (update_email x.users now id email s).0 ≡ ok true
      → (any (has_id id) s.docs ≡ true)
        × ((update_email x.users now id email s).1.docs
            ≡ modify_first (has_id id) (with_email now email) s.docs)
  unfolding update_email
  update_email-ok now id email s e =
      let (known, changed) =
        update-ok x.users id (with_email now email) s true
          (repository_error-eq-ok (update x.users id (with_email now email) s).0 true e) in
      (sym known, changed)

  load_user-docs : (sub : String) (w : World) → (load_user x sub w).1.users.docs ≡ w.users.docs
  unfolding load_user parse_user_id ◌>>=◌
  load_user-docs sub w = elim (Option-cases (x.parse_str sub)) [
    | inl none' ↦ ground arith
    | inr (id, h) ↦ ground (arith, find_by_id-docs x.users id w.users)
  ]

  email_written-eq-ok :
      (missing : AppError) (r : Result RepositoryError Bool)
      → email_written missing r ≡ ok tt
      → r ≡ ok true
  email_written-eq-ok missing (ok true) e = refl
  email_written-eq-ok missing (ok false) e = cc
  email_written-eq-ok missing (err duplicate_email) e = cc
  email_written-eq-ok missing (err (database error)) e = cc

  -- An email is changed only for the account that a valid access token names, which exists, and only
  -- to the normalized form of an email; it is written to that account alone.
  pub update_me-ok :
      (payload : Result JsonRejection UpdateMeRequest) (w : World) (answer : MeResponse)
      → (update_me x state ambient payload w).0 ≡ ok answer
      → (claims : Claims) × (request : UpdateMeRequest) × (id : ObjectId) × (auth_user x.jwt
            state.jwt state.settings.config.token.cookie_name
            (seconds (ambient.clock 0))
            ambient.headers
          ≡ ok claims)
        × (payload ≡ ok request)
        × (x.is_email request.email ≡ true)
        × (x.parse_str claims.sub ≡ some id)
        × (any (has_id id) w.users.docs ≡ true)
        × ((update_me x state ambient payload w).1.users.docs
            ≡ modify_first
                (has_id id)
                (with_email
                  (ambient.clock 1)
                  (normalize_email x.unicode.to_lowercase request.email))
                w.users.docs)
  unfolding update_me signed_in parse_user_id
  update_me-ok payload w answer e = invert_run _ _ _ e λ claims signed r₁ e₁.
      invert_run _ _ _ e₁ λ request accepts r₂ e₂. invert_run _ _ _ e₂ λ _ is_email r₃ e₃.
        invert_run _ _ _ e₃ λ id parsed r₄ e₄. invert_run _ _ _ e₄ λ tried attempted r₅ e₅.
          invert_run _ _ _ e₅ λ _ written r₆ e₆. invert_run _ _ _ e₆ λ user read r₇ e₇.
            let (known, changed) =
              update_email-ok (ambient.clock 1) id
                (normalize_email x.unicode.to_lowercase request.email) w.users
                (ok_injective _ _ _ refl attempted
                  ∙ email_written-eq-ok invalid_token tried written) in
            (
              claims,
              request,
              id,
              signed,
              relabel-eq-ok _ _ accepts,
              guard-eq-ok _ _ is_email,
              ok_or-eq-ok _ _ parsed,
              known,
              ap (λ r. r.1.users.docs) (r₁ ∙ r₂ ∙ r₃ ∙ r₄ ∙ r₅ ∙ r₆ ∙ r₇)
                  ∙ load_user-docs claims.sub _
                  ∙ changed,
            )

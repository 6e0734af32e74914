-- ===== src/Handlers/Register/Laws.antt =====
-- What a registration rests on, and what it writes.
use ch_api_authenticator.Repository.Users.Calls.{insert-ok}
use ch_api_authenticator.Repository.Settings.Calls.{registration_enabled-ok}
use ch_api_authenticator.Base.Text.{is_empty, trim}
use ch_api_authenticator.Exec.Laws.{
  guard-eq-ok, invert_run, not-eq-true, ok_injective, ok_or-eq-ok, relabel-eq-ok,
}
use ch_api_authenticator.Repository.Settings.{enabled_of, is_global}
use ch_api_authenticator.Handlers.Request.Laws.{check-eq-ok}
use ch_api_authenticator.Base.Lists.{any, find}
use ch_api_authenticator.Exec.{Result, err, ok}
use ch_api_authenticator.Repository.Users.{
  RepositoryError, database, duplicate_email, identify, same_account,
}
use ch_api_authenticator.Handlers.Register.{
  RegisterRequest, accepted_terms, inserted_id, register, register_errors, registered,
}
use ch_api_authenticator.Domain.User.{
  ObjectId, accept_terms, current_terms_version, new, normalize_email, pending_validation,
}
use ch_api_authenticator.Base.{String, [], ap, arith, false, refl, some, sym, true, ◌∙◌, ◌∷◌, ◌≡◌}
use ch_api_authenticator.Error.{JsonRejection, internal}
use ch_api_authenticator.State.{Ambient, AppState, Platform, World}
use mathlib.Core.List

module _ (x : Platform) (state : AppState) (ambient : Ambient) where
  -- The registration that led from the first world to the second and answered the text of an id.
  pub record IsRegistration (w w' : World) (request : RegisterRequest) (answer : String)
      : Type 0 where
    pub id : ObjectId
    pub hash : String
    pub open_to_all : enabled_of (find is_global w.settings.docs) ≡ true
    pub acceptable : register_errors x state ambient request ≡ []
    pub named : is_empty (trim request.name) ≡ false
    pub accepts : accepted_terms request.accepted_terms_version ≡ ok tt
    pub hashed : x.crypto.hash_password ambient.salt request.password ≡ some hash
    pub stored :
        w'.users.docs
        ≡ List.◌++◌ w.users.docs (identify id (registered x state ambient request hash) ∷ [])
    pub unknown :
        any (same_account (identify id (registered x state ambient request hash))) w.users.docs
        ≡ false
    pub answered : answer ≡ x.to_hex id

  -- What the account of a registration is.
  pub registered_lem :
      (request : RegisterRequest) (hash : String)
      → let user = registered x state ambient request hash in
        (user.status ≡ pending_validation)
        × (user.email ≡ normalize_email x.unicode.to_lowercase request.email)
        × (user.password_hash ≡ hash)
        × (user.roles ≡ state.settings.config.registration.default_roles)
        × (user.whitelist_only ≡ false)
        × (user.terms_version ≡ some current_terms_version)
  unfolding registered new accept_terms
  registered_lem request hash = (refl, refl, refl, refl, refl, refl)

  inserted_id-eq-ok :
      (r : Result RepositoryError ObjectId) (id : ObjectId) → inserted_id r ≡ ok id → r ≡ ok id
  inserted_id-eq-ok (ok own) id e = ground arith
  inserted_id-eq-ok (err duplicate_email) id e = cc
  inserted_id-eq-ok (err (database error)) id e = cc

  -- A registration succeeds only while registrations are open, with a request that passes the
  -- checks, names its account and accepts the current terms; then one account is added, of an
  -- email and an id that no account had, and the answer is the text of its id.
  pub register-IsRegistration :
      (w : World) (payload : Result JsonRejection RegisterRequest) (answer : String)
      → (register x state ambient payload w).0 ≡ ok answer
      → (request : RegisterRequest) × (payload ≡ ok request)
        × IsRegistration w (register x state ambient payload w).1 request answer
  unfolding register
  register-IsRegistration w payload answer e = invert_run _ _ _ e λ request accepts r₁ e₁.
      invert_run _ _ _ e₁ λ enabled read r₂ e₂. invert_run _ _ _ e₂ λ _ open_to_all r₃ e₃.
        invert_run _ _ _ e₃ λ _ acceptable r₄ e₄. invert_run _ _ _ e₄ λ _ named r₅ e₅.
          invert_run _ _ _ e₅ λ _ terms r₆ e₆. invert_run _ _ _ e₆ λ hash hashed r₇ e₇.
            invert_run _ _ _ e₇ λ inserted tried r₈ e₈. invert_run _ _ _ e₈ λ id is_id r₉ e₉.
              let same = ap (λ r. r.1) (r₁ ∙ r₂ ∙ r₃ ∙ r₄ ∙ r₅ ∙ r₆ ∙ r₇ ∙ r₈ ∙ r₉) in
              let (stored, unknown) =
                insert-ok x.users (registered x state ambient request hash) w.users id
                  (ok_injective _ _ _ refl tried ∙ inserted_id-eq-ok inserted id is_id) in
              (
                request,
                relabel-eq-ok _ _ accepts,
                record {
                  id = id;
                  hash = hash;
                  open_to_all =
                      sym (registration_enabled-ok x.settings _ enabled (relabel-eq-ok _ _ read))
                      ∙ guard-eq-ok enabled _ open_to_all;
                  acceptable = check-eq-ok x.iterate _ acceptable;
                  named = not-eq-true _ (guard-eq-ok _ _ named);
                  accepts = terms;
                  hashed = ok_or-eq-ok _ internal hashed;
                  stored = ap (λ v. v.users.docs) same ∙ stored;
                  unknown = unknown;
                  answered = sym (ok_injective _ _ _ refl e₉);
                },
              )

-- ===== src/Handlers/Session/Create/Laws.antt =====
-- What the access token of a session is.
use ch_api_authenticator.Base.{refl}
use ch_api_authenticator.Exec.Laws.{ok_injective}
use ch_api_authenticator.Exec.{ok}
use ch_api_authenticator.Services.Jwt.{issue}
use ch_api_authenticator.Exec.Laws.{invert, ok_or-eq-ok}
use ch_api_authenticator.Error.{internal}
use ch_api_authenticator.Handlers.Session.Create.{Session, create_session_in_family}
use ch_api_authenticator.Base.{Option, String, ap, some, ℕ, ◌∙◌, ◌≡◌}
use ch_api_authenticator.Domain.User.{DateTime, ObjectId, User}
use ch_api_authenticator.State.{AppState, Platform, World}

module _ (x : Platform) (state : AppState) where
  -- The access token of a session is issued for the account's id and roles.
  pub create_session_in_family-eq-ok :
      (issued_at : ℕ) (created_at : DateTime) (refresh_token : String) (user : User)
      (token_ip : Option String) (family_id : ObjectId) (w : World) (session : Session)
      → (create_session_in_family x state issued_at created_at refresh_token user token_ip family_id
          w).0
        ≡ ok session
      → (id : ObjectId) × (user.id ≡ some id)
        × (issue x.jwt x.to_hex state.jwt issued_at id user.roles token_ip
            ≡ some session.access_token)
  unfolding create_session_in_family
  create_session_in_family-eq-ok issued_at created_at refresh_token user token_ip family_id w
        session e =
      invert _ _ _ e λ id identified e₁. invert _ _ _ e₁ λ token issued e₂.
        invert _ _ _ e₂ λ _ _ e₃. (
          id,
          ok_or-eq-ok _ internal identified,
          ok_or-eq-ok _ internal issued
              ∙ ap (λ (s : Session). some s.access_token) (ok_injective _ _ session refl e₃),
        )

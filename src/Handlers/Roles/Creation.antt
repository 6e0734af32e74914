-- ===== src/Handlers/Roles/Creation.antt =====
-- What the creation of a role writes.
use ch_api_authenticator.Middleware.Auth.{portal_admin}
use ch_api_authenticator.Base.Text.{is_empty, trim}
use ch_api_authenticator.Repository.Roles.Calls.{insert-ok}
use ch_api_authenticator.Exec.Laws.{guard-eq-ok, invert_run, not-eq-true, ok_injective}
use ch_api_authenticator.Base.Lists.{any}
use ch_api_authenticator.Handlers.Request.{administrator}
use ch_api_authenticator.Domain.Role.{sub_role}
use ch_api_authenticator.Handlers.Request.Laws.{accepted-eq-ok}
use ch_api_authenticator.Repository.Roles.{RoleError, database, duplicate, identify, same_role}
use ch_api_authenticator.Exec.{Result, err, ok}
use ch_api_authenticator.Domain.User.{ObjectId}
use ch_api_authenticator.Base.{[], ap, arith, false, refl, ◌∙◌, ◌∷◌, ◌≡◌}
use ch_api_authenticator.Error.{JsonRejection}
use ch_api_authenticator.Handlers.Roles.{CreateRoleRequest, RoleResponse, create_role, inserted_id}
use ch_api_authenticator.Services.Jwt.{Claims}
use ch_api_authenticator.State.{Ambient, AppState, Platform, World, seconds}
use mathlib.Core.List

module _ (x : Platform) (state : AppState) (ambient : Ambient) where
  inserted_id-eq-ok :
      (r : Result RoleError ObjectId) (id : ObjectId) → inserted_id r ≡ ok id → r ≡ ok id
  inserted_id-eq-ok (ok own) id e = ground arith
  inserted_id-eq-ok (err duplicate) id e = cc
  inserted_id-eq-ok (err (database error)) id e = cc

  -- A role is created only for an administrator and with a name that is not blank; the catalogue
  -- gets one role, no portal's, under the trimmed name, which no other role had.
  pub create_role-ok :
      (payload : Result JsonRejection CreateRoleRequest) (w : World) (answer : RoleResponse)
      → (create_role x state ambient payload w).0 ≡ ok answer
      → (request : CreateRoleRequest) × (id : ObjectId) × (claims : Claims) × (portal_admin x.jwt
            state.jwt state.settings.config.token.cookie_name
            (seconds (ambient.clock 0))
            ambient.headers
          ≡ ok claims)
        × (payload ≡ ok request)
        × (is_empty (trim request.name) ≡ false)
        × ((create_role x state ambient payload w).1.roles.docs
            ≡ List.◌++◌ w.roles.docs
                (identify id (sub_role (ambient.clock 1) request.name request.portal) ∷ []))
        × (any
              (same_role (identify id (sub_role (ambient.clock 1) request.name request.portal)))
              w.roles.docs
            ≡ false)
  unfolding create_role administrator
  create_role-ok payload w answer e = invert_run _ _ _ e λ claims admin r₁ e₁.
      invert_run _ _ _ e₁ λ request accepts r₂ e₂. invert_run _ _ _ e₂ λ _ named r₃ e₃.
        invert_run _ _ _ e₃ λ inserted tried r₄ e₄. invert_run _ _ _ e₄ λ id is_id r₅ e₅.
          let same = ap (λ r. r.1.roles.docs) (r₁ ∙ r₂ ∙ r₃ ∙ r₄ ∙ r₅) in
          let (stored, fresh) =
            insert-ok x.roles (sub_role (ambient.clock 1) request.name request.portal) w.roles id
              (ok_injective _ _ _ refl tried ∙ inserted_id-eq-ok inserted id is_id) in
          (
            request,
            id,
            claims,
            admin,
            (accepted-eq-ok x.iterate _ _ request accepts).0,
            not-eq-true _ (guard-eq-ok _ _ named),
            same ∙ stored,
            fresh,
          )

-- ===== src/Handlers/Roles/Laws.antt =====
-- What the catalogue of roles keeps.
use ch_api_authenticator.Mongo.Docs.{remove_first}
use ch_api_authenticator.Middleware.Auth.{portal_admin}
use ch_api_authenticator.Exec.{ok}
use ch_api_authenticator.Repository.Roles.{has_id}
use ch_api_authenticator.Exec.Laws.{
  guard-eq-ok, invert_run, not-eq-true, ok_or-eq-ok, relabel-eq-ok,
}
use ch_api_authenticator.Base.Lists.{find}
use ch_api_authenticator.Handlers.Roles.{delete_role}
use ch_api_authenticator.Repository.Roles.Calls.{delete-ok, find_by_id-ok}
use ch_api_authenticator.Handlers.Request.{administrator}
use ch_api_authenticator.Base.{String, ap, false, some, sym, ◌∙◌, ◌≡◌}
use ch_api_authenticator.Domain.Role.{Role, is_portal_role}
use ch_api_authenticator.Domain.User.{ObjectId}
use ch_api_authenticator.Services.Jwt.{Claims}
use ch_api_authenticator.State.{Ambient, AppState, Platform, World, seconds}

module _ (x : Platform) (state : AppState) (ambient : Ambient) where
  -- A role is deleted only for an administrator, and only if the id is that of a role of the
  -- catalogue that is no portal's; then that one document is removed.
  pub delete_role-ok :
      (id : String) (w : World)
      → (delete_role x state ambient id w).0 ≡ ok tt
      → (role_id : ObjectId) × (role : Role) × (claims : Claims) × (portal_admin x.jwt state.jwt
            state.settings.config.token.cookie_name
            (seconds (ambient.clock 0))
            ambient.headers
          ≡ ok claims)
        × (x.parse_str id ≡ some role_id)
        × (find (has_id role_id) w.roles.docs ≡ some role)
        × (is_portal_role role ≡ false)
        × ((delete_role x state ambient id w).1.roles.docs
            ≡ remove_first (has_id role_id) w.roles.docs)
  unfolding delete_role administrator
  delete_role-ok id w e = invert_run _ _ _ e λ claims admin r₁ e₁.
      invert_run _ _ _ e₁ λ role_id parsed r₂ e₂. invert_run _ _ _ e₂ λ found read r₃ e₃.
        invert_run _ _ _ e₃ λ role is_role r₄ e₄. invert_run _ _ _ e₄ λ _ no_portal r₅ e₅.
          invert_run _ _ _ e₅ λ deleted wrote r₆ e₆.
            let same = ap (λ r. r.1) (r₁ ∙ r₂ ∙ r₃ ∙ r₄ ∙ r₅ ∙ r₆) in
            let (is_found, kept) = find_by_id-ok x.roles role_id _ found (relabel-eq-ok _ _ read) in
            let (_, removed) = delete-ok x.roles role_id _ deleted (relabel-eq-ok _ _ wrote) in
            (
              role_id,
              role,
              claims,
              admin,
              ok_or-eq-ok _ _ parsed,
              sym is_found ∙ ok_or-eq-ok found _ is_role,
              not-eq-true _ (guard-eq-ok _ _ no_portal),
              ap (λ v. v.roles.docs) same ∙ removed ∙ ap (remove_first (has_id role_id)) kept,
            )

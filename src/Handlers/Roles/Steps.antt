-- ===== src/Handlers/Roles/Steps.antt =====
-- The handlers of handlers/roles.rs as runs of the policy's steps.
use ch_api_authenticator.Service.Policy.{Given}
use ch_api_authenticator.State.{in_roles, or_internal}
use ch_api_authenticator.Exec.Laws.{guard-eq-ok, not-eq-true, ok_or-eq-ok, relabel-eq-ok}
use ch_api_authenticator.Service.Runs.{Runs-end, Steps-bind, Steps-lift}
use ch_api_authenticator.Service.Policy.{Steps}
use ch_api_authenticator.Service.Calls.Stores.{
  role_delete-Write, role_insert-Runs, roles_list-Runs, roles_read-Runs,
}
use ch_api_authenticator.Repository.Roles.Calls.{find_by_id-docs, find_by_id-ok}
use ch_api_authenticator.Base.Lists.{find}
use ch_api_authenticator.Repository.Roles.{delete, has_id}
use ch_api_authenticator.Handlers.Request.{administrator}
use ch_api_authenticator.Service.Policy.{Step, here, next}
use ch_api_authenticator.Service.Runs.{
  Runs, Runs-attempt, Runs-bind, Runs-bind_at, Runs-lift, Runs-map_err, Runs-pure,
}
use ch_api_authenticator.Domain.Role.{Role, is_portal_role}
use ch_api_authenticator.Exec.{Result}
use ch_api_authenticator.Base.{String, ap, false, some, sym, ◌∙◌, ◌≡◌}
use ch_api_authenticator.Domain.User.{ObjectId}
use ch_api_authenticator.Error.{JsonRejection}
use ch_api_authenticator.Handlers.Admin.Laws.{IsAdministrator}
use ch_api_authenticator.Handlers.Roles.{CreateRoleRequest, create_role, delete_role, list_roles}
use ch_api_authenticator.State.{Ambient, AppState, Platform, World}

module _ {x : Platform} {state : AppState} {ambient : Ambient} {given : Given} where
  pub list_roles-Runs : Runs x state ambient given (list_roles x state ambient)
  unfolding list_roles administrator
  list_roles-Runs = Runs-lift λ _ _. Runs-bind (Runs-map_err _ roles_list-Runs) λ _. Runs-pure _

  pub create_role-Runs :
      (payload : Result JsonRejection CreateRoleRequest)
      → Runs x state ambient given (create_role x state ambient payload)
  unfolding create_role administrator
  create_role-Runs payload = Runs-lift λ claims valid. Runs-lift λ request _. Runs-lift λ _ _.
      Runs-bind (Runs-attempt (role_insert-Runs _ request.name request.portal (claims, valid)))
        λ _. Runs-lift λ _ _. Runs-pure _

  -- The role that was found is still the first of its id when it is deleted.
  delete_found-Steps :
      (id : ObjectId) (role : Role) (v : World)
      → IsAdministrator x state ambient
      → find (has_id id) v.roles.docs ≡ some role
      → is_portal_role role ≡ false
      → Steps x state ambient given v (or_internal (in_roles (delete x.roles id)) v).1
  delete_found-Steps id role v right found free = next here (
      Step.roles v (delete x.roles id v.roles).1
        (role_delete-Write id role right free v.roles found))

  pub delete_role-Runs : (id : String) → Runs x state ambient given (delete_role x state ambient id)
  unfolding delete_role administrator
  delete_role-Runs id = Runs-lift λ claims valid. Runs-lift λ role_id _.
      Runs-bind_at _ (Runs-map_err _ (roles_read-Runs _ (find_by_id-docs x.roles role_id)))
        λ w found read.
          let (is_found, same) =
            find_by_id-ok x.roles role_id w.roles found (relabel-eq-ok _ _ read) in
          Steps-lift _ _ λ role is_some. Steps-lift _ _ λ _ is_sub.
            Steps-bind _ _ _
              (delete_found-Steps role_id role _ (claims, valid)
                (ap (find (has_id role_id)) same ∙ sym is_found ∙ ok_or-eq-ok found _ is_some)
                (not-eq-true _ (guard-eq-ok _ _ is_sub)))
              λ _. Runs-end _

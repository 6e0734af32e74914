-- ===== src/Handlers/Admin/Steps.antt =====
-- The handlers of handlers/admin.rs as runs of the policy's steps.
use ch_api_authenticator.Service.Policy.{Given}
use ch_api_authenticator.Handlers.Admin.Laws.{update_target}
use ch_api_authenticator.Repository.Users.{update_name}
use ch_api_authenticator.Base.Text.{trim}
use ch_api_authenticator.Service.Calls.Stores.{role_exists-Runs}
use ch_api_authenticator.Exec.Laws.{guard-eq-ok, not-eq-true, ok_or-eq-ok}
use ch_api_authenticator.Service.Calls.{
  delete-Runs, find_by_id-Runs, update-Runs, update_email-Runs,
}
use ch_api_authenticator.Handlers.Request.{administrator}
use ch_api_authenticator.Handlers.Request.Laws.{accepted-eq-ok}
use ch_api_authenticator.Handlers.Admin.{
  UpdateUserRequest, UpdateWhitelistRequest, delete_user, get_user, load_profile, require_catalogue,
  update_password, update_roles, update_status, update_user, update_whitelist,
}
use ch_api_authenticator.Service.Runs.{
  Runs, Runs-attempt, Runs-bind, Runs-end, Runs-lift, Runs-lift_err, Runs-map_err,
  Runs-publish_user_deleted, Runs-pure,
}
use ch_api_authenticator.Exec.{Result}
use ch_api_authenticator.Base.{List, String, [], inl, refl, ◌∷◌}
use ch_api_authenticator.Error.{JsonRejection, internal}
use ch_api_authenticator.Service.Policy.{
  Edit, administrator_sets, edits_email, edits_name, edits_password, edits_roles, edits_status,
  edits_whitelist,
}
use ch_api_authenticator.State.{Ambient, AppState, Platform}
use ch_api_authenticator.Domain.User.{AccountStatus, ObjectId, User}
use ch_api_authenticator.Repository.Users

module _ {x : Platform} {state : AppState} {ambient : Ambient} {given : Given} where
  load_profile-Runs : (user_id : ObjectId) → Runs x state ambient given (load_profile x user_id)
  unfolding load_profile
  load_profile-Runs user_id =
      Runs-bind (Runs-map_err _ (find_by_id-Runs user_id)) λ _. Runs-lift λ _ _. Runs-pure _

  require_catalogue-Runs :
      (roles : List String) → Runs x state ambient given (require_catalogue x roles)
  unfolding require_catalogue
  require_catalogue-Runs [] = Runs-pure tt
  require_catalogue-Runs (role ∷ roles) =
      Runs-bind (Runs-map_err _ (role_exists-Runs role))
        λ _. Runs-lift λ _ _. require_catalogue-Runs roles

  -- The end that four of the handlers share.
  update_target-Runs :
      (id : String) (change : User → User)
      → ((user_id : ObjectId) → Edit x state ambient given user_id change)
      → Runs x state ambient given (update_target x state ambient id change)
  update_target-Runs id change edit = Runs-lift λ user_id _.
      Runs-bind (Runs-map_err _ (update-Runs user_id change (edit user_id)))
        λ _. Runs-lift λ _ _. load_profile-Runs user_id

  pub update_roles-Runs :
      (id : String) (payload : Result JsonRejection (List String))
      → Runs x state ambient given (update_roles x state ambient id payload)
  unfolding update_roles administrator Users.update_roles
  update_roles-Runs id payload = Runs-lift λ claims valid. Runs-lift λ roles _.
      Runs-bind (require_catalogue-Runs roles)
        λ _. update_target-Runs id _ λ _. edits_roles _ roles (claims, valid) refl

  pub update_whitelist-Runs :
      (id : String) (payload : Result JsonRejection UpdateWhitelistRequest)
      → Runs x state ambient given (update_whitelist x state ambient id payload)
  unfolding update_whitelist administrator Users.update_whitelist
  update_whitelist-Runs id payload = Runs-lift λ claims valid. Runs-lift λ request _.
      Runs-lift λ _ open_to. update_target-Runs id _ λ _.
        edits_whitelist _ request.whitelist_only request.allowed_ips (claims, valid)
          (not-eq-true _ (guard-eq-ok _ _ open_to)) refl

  pub update_status-Runs :
      (id : String) (payload : Result JsonRejection AccountStatus)
      → Runs x state ambient given (update_status x state ambient id payload)
  unfolding update_status administrator Users.update_status
  update_status-Runs id payload = Runs-lift λ claims valid.
      Runs-lift λ status _. update_target-Runs id _ λ _. edits_status _ status (claims, valid) refl

  pub update_user-Runs :
      (id : String) (payload : Result JsonRejection UpdateUserRequest)
      → Runs x state ambient given (update_user x state ambient id payload)
  unfolding update_user administrator update_name
  update_user-Runs id payload = Runs-lift λ claims valid. Runs-lift_err _ λ request _.
      Runs-lift λ _ _. Runs-lift λ _ named. Runs-lift λ user_id _.
        Runs-bind
          (Runs-attempt (
            update_email-Runs _ user_id _ (edits_email _ request.email (inl (claims, valid)) refl)))
          λ _. Runs-lift λ _ _.
            Runs-bind
              (Runs-map_err _ (
                update-Runs user_id _ (
                  edits_name _ (trim request.name) (claims, valid)
                    (not-eq-true _ (guard-eq-ok _ _ named)) refl)))
              λ _. load_profile-Runs user_id

  pub get_user-Runs : (id : String) → Runs x state ambient given (get_user x state ambient id)
  unfolding get_user administrator
  get_user-Runs id = Runs-lift λ _ _. Runs-lift λ user_id _. load_profile-Runs user_id

  pub delete_user-Runs : (id : String) → Runs x state ambient given (delete_user x state ambient id)
  unfolding delete_user administrator
  delete_user-Runs id = Runs-lift λ claims valid. Runs-lift λ user_id _.
      Runs-bind (Runs-map_err _ (delete-Runs user_id (claims, valid)))
        λ _. Runs-lift λ _ _. Runs-publish_user_deleted _ (claims, valid)

  pub update_password-Runs :
      (id : String) (payload : Result JsonRejection String)
      → Runs x state ambient given (update_password x state ambient id payload)
  unfolding update_password administrator Users.update_password
  update_password-Runs id payload = Runs-lift λ claims valid. Runs-lift λ password accepts.
      Runs-lift λ user_id _. Runs-lift λ hash hashed.
        Runs-bind
          (Runs-map_err _ (
            update-Runs user_id _ (
              edits_password _ password hash (administrator_sets (claims, valid))
                (accepted-eq-ok x.iterate _ _ password accepts).1 (ok_or-eq-ok _ internal hashed)
                refl)))
          λ _. Runs-end _

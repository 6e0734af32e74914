-- ===== src/Handlers/Roles.antt =====
-- handlers/roles.rs: the catalogue of roles, for administrators.
pub mod Creation
pub mod Laws
pub mod Steps
use ch_api_authenticator.Exec.{◌>>=◌, ◌>>◌}
use ch_api_authenticator.Base.Text.{is_empty, trim}
use ch_api_authenticator.Handlers.Me.{hex_or_empty}
use ch_api_authenticator.Handlers.Request.{accepted, administrator}
use ch_api_authenticator.Validation.{ValidationError, require}
use ch_api_authenticator.Repository.Roles.{
  RoleError, database, delete, duplicate, find_by_id, insert, list,
}
use ch_api_authenticator.Exec.{Result, attempt, err, guard, lift, ok, ok_or, pure}
use ch_api_authenticator.Domain.Role.{Portal, Role, RoleKind, is_portal_role, sub_role}
use ch_api_authenticator.Domain.User.{ObjectId}
use ch_api_authenticator.Base.{List, String, map, not, some}
use ch_api_authenticator.Error.{
  AppError, JsonRejection, conflict, forbidden, internal, not_found, validation,
}
use ch_api_authenticator.State.{Ambient, AppState, Handler, Platform, in_roles, or_internal}

pub record RoleResponse : Type 0 where
  pub id : String
  pub name : String
  pub portal : Portal
  pub kind : RoleKind
  pub created_at : String

pub record CreateRoleRequest : Type 0 where
  pub name : String
  pub portal : Portal

unfoldable pub role_response : Platform → Role → RoleResponse
role_response x role = record {
  id = hex_or_empty x role.id;
  name = role.name;
  portal = role.portal;
  kind = role.kind;
  created_at = x.rfc3339 role.created_at;
}

abbrev pub role_name_required : String
role_name_required = "le nom du rôle est requis"

abbrev pub unknown_role : AppError
unknown_role = not_found "rôle inconnu"

abbrev create_role_errors : CreateRoleRequest → List ValidationError
create_role_errors request = require "length" role_name_required (not (is_empty request.name))

-- `match state.roles.insert(&role).await`
abbrev pub inserted_id : Result RoleError ObjectId → Result AppError ObjectId
inserted_id (ok id) = ok id
inserted_id (err duplicate) = err (conflict "rôle déjà défini")
inserted_id (err (database e)) = err internal

module _ (x : Platform) (state : AppState) (ambient : Ambient) where
  unfoldable pub list_roles : Handler (List RoleResponse)
  list_roles = do
    administrator x state ambient
    roles ← or_internal (in_roles (list x.roles x.text_before))
    pure (map (role_response x) roles)

  unfoldable pub create_role : Result JsonRejection CreateRoleRequest → Handler RoleResponse
  create_role payload = do
    administrator x state ambient
    request ← lift (accepted x.iterate create_role_errors payload)
    lift (guard (not (is_empty (trim request.name))) (validation role_name_required))
    let role = sub_role (ambient.clock 1) request.name request.portal
    inserted ← attempt (in_roles (insert x.roles role))
    id ← lift (inserted_id inserted)
    pure (role_response x (record role { id = some id }))

  unfoldable pub delete_role : String → Handler (Unit {0})
  delete_role id = do
    administrator x state ambient
    role_id ← lift (ok_or (x.parse_str id) unknown_role)
    found ← or_internal (in_roles (find_by_id x.roles role_id))
    role ← lift (ok_or found unknown_role)
    lift (guard (not (is_portal_role role)) (forbidden "un rôle portail ne peut pas être supprimé"))
    deleted ← or_internal (in_roles (delete x.roles role_id))
    lift (guard deleted unknown_role)

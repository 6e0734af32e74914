-- ===== src/Handlers/Admin.antt =====
-- handlers/admin.rs: what an administrator does to accounts. The pages of accounts are in
-- Admin/Pages.
pub mod Changes
pub mod Laws
pub mod Pages
pub mod Steps
use ch_api_authenticator.Exec.{◌>>=◌, ◌>>◌}
use ch_api_authenticator.Services.Jwt.{written}
use ch_api_authenticator.Services.Whitelist.{validate_entries}
use ch_api_authenticator.Handlers.Password.{strength_errors}
use ch_api_authenticator.Domain.Events.{new}
use ch_api_authenticator.Base.Lists.{is_nil}
use ch_api_authenticator.Base.Text.{is_empty, trim}
use ch_api_authenticator.Handlers.Request.{accepted, administrator, email_written, name_required}
use ch_api_authenticator.Validation.{ValidationError, field_error}
use ch_api_authenticator.Repository.Users.{Users, delete, find_by_id, update_email, update_name}
use ch_api_authenticator.Repository.Roles.{Roles, exists}
use ch_api_authenticator.Exec.{Result, attempt, err, guard, lift, lift_err, ok, ok_or, pure}
use ch_api_authenticator.Services.Net.{Net}
use ch_api_authenticator.Handlers.Me.{MeResponse, profile}
use ch_api_authenticator.Base.{
  Bool, List, String, [], false, if◌then◌else◌, not, some, ◌&&◌, ◌++◌, ◌+◌, ◌||◌, ◌∷◌,
}
use ch_api_authenticator.Error.{
  AppError, JsonRejection, from_rejection, internal, not_found, validation,
}
use ch_api_authenticator.State.{
  Ambient, AppState, Handler, Platform, in_roles, in_users, or_internal, publish_user_deleted,
}
use ch_api_authenticator.Domain.User.{AccountStatus, ObjectId, normalize_email}
use ch_api_authenticator.Repository.Users
use ch_api_authenticator.Repository.Roles

abbrev pub any_blank : List String → Bool
any_blank [] = false
any_blank (role ∷ roles) = is_empty (trim role) || any_blank roles

unfoldable pub validate_role_names : List String → Result ValidationError (Unit {0})
validate_role_names roles =
    if any_blank roles
    then err (record { code = "role_empty"; message = some "les rôles ne peuvent pas être vides" })
    else ok tt

abbrev invalid_ips : String → ValidationError
invalid_ips invalid = record {
  code = "allowed_ips";
  message =
      some ("allowed_ips contient une entrée invalide : " ++ invalid ++ " (IP ou CIDR attendu)");
}

abbrev ips_error : Result String (Unit {0}) → Result ValidationError (Unit {0})
ips_error (ok valid) = ok tt
ips_error (err invalid) = err (invalid_ips invalid)

unfoldable pub validate_allowed_ips : Net → List String → Result ValidationError (Unit {0})
validate_allowed_ips net ips = ips_error (validate_entries net ips)

pub record UpdateWhitelistRequest : Type 0 where
  pub whitelist_only : Bool
  pub allowed_ips : List String

pub record UpdateUserRequest : Type 0 where
  pub name : String
  pub email : String

abbrev pub unknown_user : AppError
unknown_user = not_found "utilisateur inconnu"

module _ (x : Platform) where
  unfoldable pub parse_target_id : String → Result AppError ObjectId
  parse_target_id id = ok_or (x.parse_str id) unknown_user

  unfoldable pub load_profile : ObjectId → Handler MeResponse
  load_profile user_id = do
    found ← or_internal (in_users (find_by_id x.users user_id))
    user ← lift (ok_or found unknown_user)
    pure (profile x user)

  -- The loop of `update_roles`.
  unfoldable pub require_catalogue : List String → Handler (Unit {0})
  require_catalogue [] = pure tt
  require_catalogue (role ∷ roles) = do
    exists ← or_internal (in_roles (Roles.exists x.roles role))
    lift (guard exists (validation ("rôle inexistant dans le catalogue : " ++ role)))
    require_catalogue roles

module _ (x : Platform) (state : AppState) (ambient : Ambient) where
  abbrev roles_errors : List String → List ValidationError
  roles_errors roles = field_error (validate_role_names roles)

  unfoldable pub update_roles : String → Result JsonRejection (List String) → Handler MeResponse
  update_roles id payload = do
    administrator x state ambient
    roles ← lift (accepted x.iterate roles_errors payload)
    require_catalogue x roles
    user_id ← lift (parse_target_id x id)
    updated ← or_internal (in_users (Users.update_roles x.users (ambient.clock 1) user_id roles))
    lift (guard updated unknown_user)
    load_profile x user_id

  abbrev whitelist_errors : UpdateWhitelistRequest → List ValidationError
  whitelist_errors request = field_error (validate_allowed_ips x.net request.allowed_ips)

  abbrev pub locks_out : UpdateWhitelistRequest → Bool
  locks_out request = request.whitelist_only && is_nil request.allowed_ips

  unfoldable pub update_whitelist :
      String → Result JsonRejection UpdateWhitelistRequest → Handler MeResponse
  update_whitelist id payload = do
    administrator x state ambient
    request ← lift (accepted x.iterate whitelist_errors payload)
    lift (
        guard (not (locks_out request))
          (validation "whitelist_only sans allowed_ips verrouillerait le compte définitivement"))
    user_id ← lift (parse_target_id x id)
    updated ← or_internal (
        in_users (
          Users.update_whitelist x.users (ambient.clock 1) user_id request.whitelist_only
            request.allowed_ips))
    lift (guard updated unknown_user)
    load_profile x user_id

  abbrev no_errors : AccountStatus → List ValidationError
  no_errors status = []

  unfoldable pub update_status : String → Result JsonRejection AccountStatus → Handler MeResponse
  update_status id payload = do
    administrator x state ambient
    status ← lift (accepted x.iterate no_errors payload)
    user_id ← lift (parse_target_id x id)
    updated ← or_internal (in_users (Users.update_status x.users (ambient.clock 1) user_id status))
    lift (guard updated unknown_user)
    load_profile x user_id

  abbrev pub is_valid_user : UpdateUserRequest → Bool
  is_valid_user request = not (is_empty request.name) && x.is_email request.email

  unfoldable pub update_user : String → Result JsonRejection UpdateUserRequest → Handler MeResponse
  update_user id payload = do
    administrator x state ambient
    request ← lift_err from_rejection payload
    lift (guard (is_valid_user request) (validation "nom ou email invalide"))
    lift (guard (not (is_empty (trim request.name))) name_required)
    user_id ← lift (parse_target_id x id)
    written ← attempt (
        in_users (
          update_email x.users (ambient.clock 1) user_id
            (normalize_email x.unicode.to_lowercase request.email)))
    lift (email_written unknown_user written)
    or_internal (in_users (update_name x.users (ambient.clock 2) user_id (trim request.name)))
    load_profile x user_id

  unfoldable pub get_user : String → Handler MeResponse
  get_user id = do
    administrator x state ambient
    user_id ← lift (parse_target_id x id)
    load_profile x user_id

  unfoldable pub delete_user : String → Handler (Unit {0})
  delete_user id = do
    administrator x state ambient
    user_id ← lift (parse_target_id x id)
    deleted ← or_internal (in_users (delete x.users user_id))
    lift (guard deleted unknown_user)
    publish_user_deleted state (new ambient.uuid (x.to_hex user_id) (x.rfc3339 (ambient.clock 1)))

  unfoldable pub update_password : String → Result JsonRejection String → Handler (Unit {0})
  update_password id payload = do
    administrator x state ambient
    password ← lift (accepted x.iterate (strength_errors x) payload)
    user_id ← lift (parse_target_id x id)
    hash ← lift (ok_or (x.crypto.hash_password ambient.salt password) internal)
    updated ← or_internal (in_users (Users.update_password x.users (ambient.clock 1) user_id hash))
    lift (guard updated unknown_user)

-- ===== src/Examples/Administration/Changes.antt =====
-- A status and a password that an administrator writes, and a role that they create.
use ch_api_authenticator.Repository.Users.{update}
use ch_api_authenticator.Mongo.{is_duplicate_key}
use ch_api_authenticator.Handlers.Roles.{role_response}
use ch_api_authenticator.Validation.{require}
use ch_api_authenticator.Validation.{normalize_password}
use ch_api_authenticator.Validation.{is_strong}
use ch_api_authenticator.Validation.{compromised_passwords}
use ch_api_authenticator.Validation.{is_compromised}
use ch_api_authenticator.Validation.{validate_password_strength}
use ch_api_authenticator.Validation.{field_error}
use ch_api_authenticator.Validation.{format_errors}
use ch_api_authenticator.Middleware.Auth.{token_from_cookie}
use ch_api_authenticator.Middleware.Auth.{require_admin}
use ch_api_authenticator.Middleware.Auth.{auth_user}
use ch_api_authenticator.Error.{from_rejection}
use ch_api_authenticator.Base.Text.{trim_start}
use ch_api_authenticator.Base.Text.{trim_end}
use ch_api_authenticator.Base.Text.{split_once}
use ch_api_authenticator.Base.Text.{split}
use ch_api_authenticator.Base.Text.{join}
use ch_api_authenticator.Base.Text.{is_space}
use ch_api_authenticator.Handlers.Admin.{parse_target_id}
use ch_api_authenticator.Validation.{check}
use ch_api_authenticator.Handlers.Request.{accepted}
use ch_api_authenticator.Domain.RolesFormat.{collected}
use ch_api_authenticator.Domain.RolesFormat.{distinct_roles}
use ch_api_authenticator.Domain.RolesFormat.{deserialize_roles}
use ch_api_authenticator.Services.Jwt.{validate}
use ch_api_authenticator.Base.Text.{strip_prefix}
use ch_api_authenticator.Middleware.Auth.{token_from_bearer}
use ch_api_authenticator.Middleware.Auth.{extract_token}
use ch_api_authenticator.Handlers.Request.{administrator}
use ch_api_authenticator.Exec.{◌>>=◌}
use ch_api_authenticator.Domain.Role.{sub}
use ch_api_authenticator.Domain.Role.{drive}
use ch_api_authenticator.Handlers.Admin.Changes.{update_password-ok}
use ch_api_authenticator.Domain.Role.{sub_role}
use ch_api_authenticator.Handlers.Password.{strength_errors}
use ch_api_authenticator.Middleware.Auth.{portal_admin}
use ch_api_authenticator.Mongo.Docs.{modify_first}
use ch_api_authenticator.Base.Text.{is_empty, trim}
use ch_api_authenticator.Examples.Instances.{unary}
use ch_api_authenticator.Handlers.Roles.Creation.{create_role-ok}
use ch_api_authenticator.Base.Lists.{any}
use ch_api_authenticator.Examples.Scenario.{ambient, headers, platform, state, viewer, world}
use ch_api_authenticator.Repository.Users.{Users, has_id, identify, with_password, with_status}
use ch_api_authenticator.Base.{String, [], false, refl, some, ◌∷◌, ◌≡◌}
use ch_api_authenticator.Repository.Roles.{Roles, same_role}
use ch_api_authenticator.Exec.{Result, ok}
use ch_api_authenticator.Error.{JsonRejection}
use ch_api_authenticator.Handlers.Admin.Laws.{IsAdministrator}
use ch_api_authenticator.Handlers.Roles.{CreateRoleRequest, create_role}
use ch_api_authenticator.Services.Jwt.{Claims}
use ch_api_authenticator.Domain.User.{AccountStatus, ObjectId, disabled}
use ch_api_authenticator.Repository.Users
use ch_api_authenticator.Repository.Roles
use ch_api_authenticator.Handlers.Admin.{update_password}

abbrev status_request : Result JsonRejection AccountStatus
status_request = ok disabled

abbrev password_request : Result JsonRejection String
password_request = ok "New-password-2"

update_password-ok_example :
    IsAdministrator platform state ambient
    × (password : String) × (hash : String) × (password_request ≡ ok password)
    × (strength_errors platform password ≡ [])
    × (platform.crypto.hash_password "salt" password ≡ some hash)
    × (user_id : ObjectId) × (platform.parse_str (unary 7) ≡ some user_id)
    × ((update_password platform state ambient (unary 7) password_request world).1.users.docs
        ≡ modify_first (Users.has_id user_id) (with_password 1000000 hash) world.users.docs)
    × ((update_password platform state ambient (unary 7) password_request world).1.refresh_tokens
        ≡ world.refresh_tokens)
unfolding update_password ◌>>=◌ administrator portal_admin extract_token token_from_bearer
    strip_prefix trim validate deserialize_roles distinct_roles collected accepted check field_error
    validate_password_strength is_compromised compromised_passwords is_space join split split_once
    trim_end trim_start from_rejection parse_target_id auth_user require_admin token_from_cookie
    Users.update Users.update_password format_errors is_strong normalize_password
update_password-ok_example =
    update_password-ok platform state ambient (unary 7) password_request world refl

abbrev role_request : Result JsonRejection CreateRoleRequest
role_request = ok (record { name = " editor "; portal = drive })

create_role-ok_example :
    (request : CreateRoleRequest) × (id : ObjectId) × (own : Claims) × (portal_admin platform.jwt
        state.jwt "access" 1000 headers
      ≡ ok own)
    × (role_request ≡ ok request)
    × (is_empty (trim request.name) ≡ false)
    × ((create_role platform state ambient role_request world).1.roles.docs
        ≡ viewer ∷ Roles.identify id (sub_role 1000000 request.name request.portal) ∷ [])
    × (any
          (Roles.same_role (Roles.identify id (sub_role 1000000 request.name request.portal)))
          world.roles.docs
        ≡ false)
unfolding create_role ◌>>=◌ administrator portal_admin extract_token token_from_bearer strip_prefix
    trim validate deserialize_roles distinct_roles collected accepted check require Roles.insert
    sub_role role_response is_space join split split_once trim_end trim_start from_rejection
    auth_user require_admin token_from_cookie is_duplicate_key format_errors
create_role-ok_example =
    create_role-ok platform state ambient role_request world
      (record { id = unary 20; name = "editor"; portal = drive; kind = sub; created_at = "date" })
      refl

-- ===== src/Examples/Administration.antt =====
-- What an administrator does, and the pages that they read.
pub mod Changes
use ch_api_authenticator.Repository.Roles.{exists}
use ch_api_authenticator.Handlers.Admin.Pages.Laws.{IsLimit, IsPage}
use ch_api_authenticator.Repository.Users
use ch_api_authenticator.Handlers.Admin.{validate_allowed_ips}
use ch_api_authenticator.Validation.{format_errors}
use ch_api_authenticator.Repository.Users.{update}
use ch_api_authenticator.Middleware.Auth.{token_from_cookie}
use ch_api_authenticator.Middleware.Auth.{require_admin}
use ch_api_authenticator.Middleware.Auth.{auth_user}
use ch_api_authenticator.Handlers.Admin.{load_profile}
use ch_api_authenticator.Error.{from_rejection}
use ch_api_authenticator.Base.Text.{trim_start}
use ch_api_authenticator.Base.Text.{trim_end}
use ch_api_authenticator.Base.Text.{split_once}
use ch_api_authenticator.Base.Text.{split}
use ch_api_authenticator.Base.Text.{join}
use ch_api_authenticator.Base.Text.{is_space}
use ch_api_authenticator.Handlers.Admin.{require_catalogue}
use ch_api_authenticator.Handlers.Admin.{validate_role_names}
use ch_api_authenticator.Validation.{field_error}
use ch_api_authenticator.Validation.{check}
use ch_api_authenticator.Handlers.Request.{accepted}
use ch_api_authenticator.Repository.Users.{find_by_id}
use ch_api_authenticator.Handlers.Internal.{resolve_all}
use ch_api_authenticator.State.{publish_user_deleted}
use ch_api_authenticator.Repository.Users.{delete}
use ch_api_authenticator.Handlers.Admin.{parse_target_id}
use ch_api_authenticator.Domain.RolesFormat.{collected}
use ch_api_authenticator.Domain.RolesFormat.{distinct_roles}
use ch_api_authenticator.Domain.RolesFormat.{deserialize_roles}
use ch_api_authenticator.Base.Text.{trim}
use ch_api_authenticator.Base.Text.{strip_prefix}
use ch_api_authenticator.Middleware.Auth.{token_from_bearer}
use ch_api_authenticator.Handlers.Request.{administrator}
use ch_api_authenticator.Exec.{◌>>=◌}
use ch_api_authenticator.Services.Whitelist.{validate_entries}
use ch_api_authenticator.Handlers.Me.{profile}
use ch_api_authenticator.Base.Integers.{pos}
use ch_api_authenticator.Middleware.Auth.Laws.{portal_admin_iff}
use ch_api_authenticator.Handlers.Admin.Pages.Laws.{paginate_bounds, parse_status_iff}
use ch_api_authenticator.Handlers.Admin.Pages.{paginate, parse_status}
use ch_api_authenticator.Examples.Instances.{net, unary}
use ch_api_authenticator.Mongo.Docs.{modify_first, remove_first}
use ch_api_authenticator.Handlers.Internal.Laws.{is_authorized_iff, resolve_users-ok}
use ch_api_authenticator.Handlers.Internal.{internal_secret_header, is_authorized, resolve_users}
use ch_api_authenticator.Repository.Users.{has_id, with_roles, with_whitelist}
use ch_api_authenticator.Middleware.Auth.{extract_token, portal_admin}
use ch_api_authenticator.Handlers.Roles.Laws.{delete_role-ok}
use ch_api_authenticator.Handlers.Roles.{delete_role}
use ch_api_authenticator.Examples.Scenario.{
  ambient, claims, headers, jane, platform, secrets, state, world,
}
use ch_api_authenticator.Base.Lists.{all, any, contains, find}
use ch_api_authenticator.Handlers.Admin.{UpdateWhitelistRequest}
use ch_api_authenticator.Repository.Roles.{Roles}
use ch_api_authenticator.Domain.Role.{Role, is_portal_role}
use ch_api_authenticator.Exec.{Result, ok}
use ch_api_authenticator.Domain.User.{ObjectId, active, disabled, pending_validation}
use ch_api_authenticator.Base.{
  List, String, [], arith, false, refl, some, true, ◌*◌, ◌-◌, ◌↔◌, ◌∷◌, ◌≡◌, ◌≢◌, ◌≤◌, ◌⊎◌,
}
use ch_api_authenticator.Error.{JsonRejection}
use ch_api_authenticator.Handlers.Admin.Laws.{
  IsAdministrator, delete_user-ok, in_catalogue, update_roles-ok, update_whitelist-ok,
}
use ch_api_authenticator.Services.Jwt.{Claims}
use ch_api_authenticator.Repository.Roles
use ch_api_authenticator.Services.Jwt.{validate}
use ch_api_authenticator.Domain.Events.{new}
use ch_api_authenticator.Handlers.Admin.{update_roles, update_whitelist, delete_user}

abbrev roles_request : Result JsonRejection (List String)
roles_request = ok (" viewer " ∷ [])

update_roles-ok_example :
    IsAdministrator platform state ambient
    × (roles : List String) × (roles_request ≡ ok roles)
    × (all (in_catalogue platform state ambient world.roles.docs) roles ≡ true)
    × (user_id : ObjectId) × (platform.parse_str (unary 7) ≡ some user_id)
    × ((update_roles platform state ambient (unary 7) roles_request world).1.users.docs
        ≡ modify_first (has_id user_id) (with_roles 1000000 roles) world.users.docs)
unfolding update_roles ◌>>=◌ administrator portal_admin extract_token token_from_bearer strip_prefix
    trim validate deserialize_roles distinct_roles collected accepted check field_error
    validate_role_names require_catalogue Roles.exists is_space join split split_once trim_end
    trim_start from_rejection load_profile parse_target_id profile auth_user require_admin
    token_from_cookie find_by_id update Users.update_roles format_errors
update_roles-ok_example =
    update_roles-ok platform state ambient (unary 7) roles_request world
      (profile platform (with_roles 1000000 (" viewer " ∷ []) jane)) refl

abbrev whitelist_request : Result JsonRejection UpdateWhitelistRequest
whitelist_request = ok (record { whitelist_only = true; allowed_ips = "vaaa" ∷ "n" ∷ [] })

update_whitelist-ok_example :
    IsAdministrator platform state ambient
    × (request : UpdateWhitelistRequest) × (whitelist_request ≡ ok request)
    × (validate_entries net request.allowed_ips ≡ ok tt)
    × ((request.whitelist_only ≡ false) ⊎ (request.allowed_ips ≢ []))
    × (user_id : ObjectId) × (platform.parse_str (unary 7) ≡ some user_id)
    × ((update_whitelist platform state ambient (unary 7) whitelist_request world).1.users.docs
        ≡ modify_first
            (has_id user_id)
            (with_whitelist 1000000 request.whitelist_only request.allowed_ips)
            world.users.docs)
unfolding update_whitelist ◌>>=◌ administrator portal_admin extract_token token_from_bearer
    strip_prefix trim validate deserialize_roles distinct_roles collected accepted check field_error
    validate_allowed_ips validate_entries parse_target_id is_space join split split_once trim_end
    trim_start from_rejection load_profile profile auth_user require_admin token_from_cookie
    find_by_id update Users.update_whitelist format_errors
update_whitelist-ok_example =
    update_whitelist-ok platform state ambient (unary 7) whitelist_request world
      (profile platform (with_whitelist 1000000 true ("vaaa" ∷ "n" ∷ []) jane)) refl

delete_user-ok_example :
    IsAdministrator platform state ambient
    × (user_id : ObjectId) × (platform.parse_str (unary 7) ≡ some user_id)
    × (any (has_id user_id) world.users.docs ≡ true)
    × ((delete_user platform state ambient (unary 7) world).1.users.docs
        ≡ remove_first (has_id user_id) world.users.docs)
    × ((delete_user platform state ambient (unary 7) world).1.published
        ≡ new "uuid" (unary user_id) "date" ∷ [])
unfolding delete_user ◌>>=◌ administrator portal_admin extract_token token_from_bearer strip_prefix
    trim validate deserialize_roles distinct_roles collected parse_target_id delete
    publish_user_deleted
delete_user-ok_example = delete_user-ok platform state ambient (unary 7) world refl

delete_role-ok_example :
    (role_id : ObjectId) × (role : Role) × (own : Claims) × (portal_admin platform.jwt state.jwt
        "access" 1000 headers
      ≡ ok own)
    × (platform.parse_str (unary 2) ≡ some role_id)
    × (find (Roles.has_id role_id) world.roles.docs ≡ some role)
    × (is_portal_role role ≡ false)
    × ((delete_role platform state ambient (unary 2) world).1.roles.docs
        ≡ remove_first (Roles.has_id role_id) world.roles.docs)
unfolding delete_role ◌>>=◌ administrator portal_admin extract_token token_from_bearer strip_prefix
    trim validate deserialize_roles distinct_roles collected Roles.find_by_id is_portal_role
    Roles.delete
delete_role-ok_example = delete_role-ok platform state ambient (unary 2) world refl

resolve_users-ok_example :
    (headers internal_secret_header ≡ some secrets.internal_api_secret)
    × (secrets.internal_api_secret ≢ "")
    × (1 ≤ 1000)
unfolding resolve_users ◌>>=◌ is_authorized resolve_all find_by_id
resolve_users-ok_example =
    resolve_users-ok platform state ambient (unary 7 ∷ "?" ∷ []) world
      (record { user_id = unary 7; name = "Jane"; email = "jane@x" } ∷ []) refl

paginate_bounds_example :
    IsPage (some 3) (paginate (some 3) (some (pos 500))).page
    × IsLimit (some (pos 500)) (paginate (some 3) (some (pos 500))).limit
    × ((paginate (some 3) (some (pos 500))).skip
        ≡ ((paginate (some 3) (some (pos 500))).page - 1)
          * (paginate (some 3) (some (pos 500))).limit)
unfolding paginate
paginate_bounds_example = paginate_bounds (some 3) (some (pos 500)) (omega arith)

abbrev pending_text : String
pending_text = "pending"

portal_admin_iff_example :
    (portal_admin platform.jwt state.jwt "access" 1000 headers ≡ ok claims) ↔ (
      (token : String) × (extract_token (headers "authorization") (headers "cookie") "access"
        ≡ some token)
      × (validate platform.jwt state.jwt 1000 token ≡ some claims)
      × (contains "admin" claims.roles ≡ true))
portal_admin_iff_example = portal_admin_iff platform.jwt state.jwt "access" 1000 headers claims

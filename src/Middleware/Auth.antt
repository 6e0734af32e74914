-- ===== src/Middleware/Auth.antt =====
-- middleware/auth.rs: the access token of a request, its claims, and the administrator's role.
pub mod Laws
pub mod Refusals
use mathlib.Core.Option
use ch_api_authenticator.Base.{
  ℕ, String, ◌==◌, Bool, true, false, ◌&&◌, not, Option, none, some, if◌then◌else◌,
}
use ch_api_authenticator.Base.Lists.{contains}
use ch_api_authenticator.Base.Text.{trim, strip_prefix, split, split_once, find_map, is_empty}
use ch_api_authenticator.Error.{AppError, invalid_token, forbidden}
use ch_api_authenticator.Exec.{Result, ok, err, ok_or}
use ch_api_authenticator.Domain.User.{ObjectId}
use ch_api_authenticator.Services.Net.{Headers}
use ch_api_authenticator.Services.Jwt.{Claims, JwtCrate, JwtService, validate}

abbrev pub admin_portal : String
admin_portal = "portail_admin"

abbrev pub admin_role : String
admin_role = "admin"

abbrev pub authorization_header : String
authorization_header = "authorization"

abbrev pub cookie_header : String
cookie_header = "cookie"

abbrev non_empty : Option String → Option String
non_empty none = none
non_empty (some token) = if is_empty (trim token) then none else some (trim token)

unfoldable pub token_from_bearer : String → Option String
token_from_bearer header_value = non_empty (strip_prefix "Bearer " header_value)

abbrev named_value : String → Option (String × String) → Option String
named_value cookie_name none = none
named_value cookie_name (some (name, value)) =
    if name == cookie_name && not (is_empty (trim value)) then some (trim value) else none

unfoldable pub token_from_cookie : String → String → Option String
token_from_cookie header cookie_name =
    find_map (λ pair. named_value cookie_name (split_once b'=' (trim pair))) (split b';' header)

abbrev and_then {ℓ κ} : {A : Type ℓ} {B : Type κ} → Option A → (A → Option B) → Option B
and_then none f = none
and_then (some a) f = f a

abbrev or_else {ℓ} : {A : Type ℓ} → Option A → Option A → Option A
or_else (some a) other = some a
or_else none other = other

unfoldable pub extract_token : Option String → Option String → String → Option String
extract_token authorization cookie cookie_name =
    or_else (and_then authorization token_from_bearer)
      (and_then cookie (λ header. token_from_cookie header cookie_name))

-- `Err(AppError::Forbidden(..))` unless the roles hold the administrator's.
unfoldable pub require_admin : Claims → Result AppError Claims
require_admin claims =
    if contains admin_role claims.roles
    then ok claims
    else err (forbidden "accès réservé aux administrateurs")

module _ (jwt : JwtCrate) (service : JwtService) (cookie_name : String) where
  abbrev claims_of : ℕ → Option String → Result AppError Claims
  claims_of now none = err invalid_token
  claims_of now (some token) = ok_or (validate jwt service now token) invalid_token

  -- `AuthUser::from_request_parts` at the time `now` in seconds.
  unfoldable pub auth_user : ℕ → Headers → Result AppError Claims
  auth_user now headers =
      claims_of now
        (extract_token (headers authorization_header) (headers cookie_header) cookie_name)

  abbrev then_admin : Result AppError Claims → Result AppError Claims
  then_admin (ok claims) = require_admin claims
  then_admin (err e) = err e

  -- `PortalAdmin::from_request_parts`
  unfoldable pub portal_admin : ℕ → Headers → Result AppError Claims
  unfolding auth_user require_admin
  portal_admin now headers = then_admin (auth_user now headers)

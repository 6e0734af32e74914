-- ===== src/Handlers/Validate.antt =====
-- handlers/validate.rs: the gateway's check of an access token, from the headers alone.
pub mod Laws
use ch_api_authenticator.Base.{
  ℕ, String, ◌==◌, Bool, true, false, Option, none, some, List, [], ◌∷◌, if◌then◌else◌,
}
use ch_api_authenticator.Base.Text.{trim, strip_prefix, is_empty, join}
use ch_api_authenticator.Error.{AppError, invalid_token, forbidden, validation}
use ch_api_authenticator.Exec.{Result, ok, err, ok_or, guard, ◌>>=◌, ◌>>◌, Exec, lift, pure}
use ch_api_authenticator.Domain.Role.{Portal, from_portal_header}
use ch_api_authenticator.Services.Net.{Headers}
use ch_api_authenticator.Services.ClientIp.{client_ip_header}
use ch_api_authenticator.Services.Jwt.{Claims, JwtCrate, JwtService}
use ch_api_authenticator.Services.Jwt

abbrev pub portal_header : String
portal_header = "x-portal"

abbrev pub authorization_header : String
authorization_header = "authorization"

pub record ValidateResponse : Type 0 where
  pub user_id : String
  pub role : String

abbrev and_then {ℓ κ} : {A : Type ℓ} {B : Type κ} → Option A → (A → Option B) → Option B
and_then none f = none
and_then (some a) f = f a

abbrev pub trimmed : Option String → Option String
trimmed none = none
trimmed (some value) = some (trim value)

abbrev non_empty : String → Option String
non_empty value = if is_empty value then none else some value

unfoldable pub bearer_token : Headers → Option String
bearer_token headers =
    and_then (headers authorization_header)
      λ value. and_then (strip_prefix "Bearer " value) λ token. non_empty (trim token)

abbrev known_portal : Option String → Result AppError (Unit {0})
known_portal none = err (validation "header X-Portal manquant")
known_portal (some portal) = elim (from_portal_header portal) [
  | none ↦ err (forbidden "portail inconnu")
  | some known ↦ ok tt
]

unfoldable pub require_known_portal : Headers → Result AppError (Unit {0})
require_known_portal headers =
    known_portal (and_then (headers portal_header) λ value. non_empty (trim value))

abbrev pub same_text : Option String → String → Bool
same_text none own = false
same_text (some value) own = value == own

-- A token that is bound to an address is good from there only.
unfoldable pub require_ip : Headers → Option String → Result AppError (Unit {0})
require_ip headers none = ok tt
require_ip headers (some token_ip) =
    if same_text (trimmed (headers client_ip_header)) token_ip then ok tt else err invalid_token

unfoldable pub require_roles : List String → Result AppError (Unit {0})
require_roles [] = err (forbidden "aucun rôle attribué")
require_roles (role ∷ roles) = ok tt

abbrev and_ok : {A B : Type 0} → Result AppError A → (A → Result AppError B) → Result AppError B
and_ok (ok a) f = f a
and_ok (err e) f = err e

-- `validate` at the time `now` in seconds.
unfoldable pub validate : JwtCrate → JwtService → ℕ → Headers → Result AppError ValidateResponse
validate jwt service now headers = and_ok (ok_or (bearer_token headers) invalid_token) λ token.
    and_ok (ok_or (Jwt.validate jwt service now token) invalid_token) λ claims.
      and_ok (require_ip headers claims.ip) λ _. and_ok (require_known_portal headers) λ _.
        and_ok (require_roles claims.roles)
          λ _. ok (record { user_id = claims.sub; role = join "," claims.roles })

-- ===== src/Handlers/Cookies.antt =====
-- The cookies of handlers/session.rs: how one is set, and how one is read from the request.
pub mod Laws
use ch_api_authenticator.Base.{
  ℕ, String, ◌++◌, ◌==◌, Bool, true, false, ◌&&◌, not, Option, none, some, if◌then◌else◌,
}
use ch_api_authenticator.Base.Text.{trim, split, split_once, find_map, is_empty, decimal}
use ch_api_authenticator.Services.Net.{Headers}

abbrev domain_part : Option String → String
domain_part none = ""
domain_part (some domain) = if is_empty domain then "" else "; Domain=" ++ domain

unfoldable pub build_cookie : String → String → ℕ → Bool → Option String → String
build_cookie name value max_age secure domain =
    name
    ++ "="
    ++ value
    ++ "; HttpOnly; SameSite=Lax; Path=/; Max-Age="
    ++ decimal max_age
    ++ domain_part domain
    ++ (if secure then "; Secure" else "")

abbrev value_if_named : String → Option (String × String) → Option String
value_if_named name none = none
value_if_named name (some (cookie_name, value)) =
    if cookie_name == name && not (is_empty (trim value)) then some (trim value) else none

-- The closure of `find_map` in `cookie_value`, and in `token_from_cookie` of middleware/auth.rs.
unfoldable pub pair_value : String → String → Option String
pair_value name pair = value_if_named name (split_once b'=' (trim pair))

unfoldable pub value_in : String → String → Option String
value_in name cookies = find_map (pair_value name) (split b';' cookies)

abbrev pub cookie_header : String
cookie_header = "cookie"

-- `cookie_value`
unfoldable pub cookie_value : Headers → String → Option String
unfolding value_in
cookie_value headers name = elim (headers cookie_header) [
  | none ↦ none
  | some cookies ↦ value_in name cookies
]

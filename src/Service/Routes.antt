-- ===== src/Service/Routes.antt =====
-- routes.rs: the table of routes. A path is the list of its segments.
pub mod Laws
use mathlib.Core.List.{◌++◌}
use ch_api_authenticator.Base.Text.{is_empty}
use ch_api_authenticator.Base.Lists.{filter}
use ch_api_authenticator.Base.{Bool, List, String, [], false, map, not, true, ◌&&◌, ◌==◌, ◌∷◌}

pub data Method : Type 0 where
  get post put delete : Method

pub data Segment : Type 0 where
  literal : String → Segment
  -- `{id}`
  parameter : Segment

pub data Endpoint : Type 0 where
  health ping : Endpoint
  resolve_users : Endpoint
  register login refresh logout validate : Endpoint
  forgot reset change : Endpoint
  get_registration update_registration : Endpoint
  get_me update_me : Endpoint
  list_users list_pending get_user update_user delete_user : Endpoint
  update_status update_password update_roles update_whitelist : Endpoint
  traffic : Endpoint
  list_roles create_role delete_role : Endpoint

pub record Route : Type 0 where
  pub method : Method
  pub pattern : List Segment
  pub endpoint : Endpoint

abbrev pub route : Method → List Segment → Endpoint → Route
route method pattern endpoint = record { method = method; pattern = pattern; endpoint = endpoint }

-- `API_VERSION_PREFIX`, without its slash.
abbrev pub api_version_prefix : String
api_version_prefix = "v1"

unfoldable pub operational_routes : List Route
operational_routes =
    route get (literal "health" ∷ []) health ∷ route get (literal "ping" ∷ []) ping ∷ []

unfoldable pub internal_routes : List Route
internal_routes =
    route post (literal "internal" ∷ literal "users" ∷ literal "resolve" ∷ []) resolve_users ∷ []

unfoldable pub public_routes : List Route
public_routes =
    route post (literal "register" ∷ []) register
    ∷ route post (literal "login" ∷ []) login
    ∷ route post (literal "refresh" ∷ []) refresh
    ∷ route post (literal "logout" ∷ []) logout
    ∷ route get (literal "validate" ∷ []) validate
    ∷ route post (literal "password" ∷ literal "forgot" ∷ []) forgot
    ∷ route post (literal "password" ∷ literal "reset" ∷ []) reset
    ∷ route put (literal "password" ∷ []) change
    ∷ route get (literal "settings" ∷ literal "registration" ∷ []) get_registration
    ∷ route put (literal "settings" ∷ literal "registration" ∷ []) update_registration
    ∷ route get (literal "me" ∷ []) get_me
    ∷ route put (literal "me" ∷ []) update_me
    ∷ route get (literal "users" ∷ []) list_users
    ∷ route get (literal "users" ∷ literal "pending" ∷ []) list_pending
    ∷ route get (literal "users" ∷ parameter ∷ []) get_user
    ∷ route put (literal "users" ∷ parameter ∷ []) update_user
    ∷ route delete (literal "users" ∷ parameter ∷ []) delete_user
    ∷ route put (literal "users" ∷ parameter ∷ literal "status" ∷ []) update_status
    ∷ route put (literal "users" ∷ parameter ∷ literal "password" ∷ []) update_password
    ∷ route put (literal "users" ∷ parameter ∷ literal "roles" ∷ []) update_roles
    ∷ route get (literal "analytics" ∷ literal "traffic" ∷ []) traffic
    ∷ route put (literal "users" ∷ parameter ∷ literal "whitelist" ∷ []) update_whitelist
    ∷ route get (literal "roles" ∷ []) list_roles
    ∷ route post (literal "roles" ∷ []) create_role
    ∷ route delete (literal "roles" ∷ parameter ∷ []) delete_role
    ∷ []

-- `.nest(prefix, routes)`
abbrev pub nest_route : String → Route → Route
nest_route prefix r = record r { pattern = literal prefix ∷ r.pattern }

abbrev pub nest : String → List Route → List Route
nest prefix = map (nest_route prefix)

unfoldable pub router : List Route
router =
    operational_routes
    ++ (nest api_version_prefix public_routes ++ (public_routes ++ internal_routes))

abbrev pub same_method : Method → Method → Bool
same_method get get = true
same_method post post = true
same_method put put = true
same_method delete delete = true
same_method _ _ = false

abbrev fits_segment : Segment → String → Bool
fits_segment (literal name) segment = segment == name
fits_segment parameter segment = not (is_empty segment)

abbrev pub fits : List Segment → List String → Bool
fits [] [] = true
fits (s ∷ pattern) (segment ∷ path) = fits_segment s segment && fits pattern path
fits _ _ = false

-- The routes that a request may take; where several fit, axum prefers literal segments.
abbrev pub candidates : Method → List String → List Route → List Route
candidates method path = filter (λ r. fits r.pattern path && same_method r.method method)

-- ===== src/Domain/RolesFormat.antt =====
-- `deserialize_roles` of domain/user.rs: three stored formats, read as one list with no repeats.
pub mod Laws
use mathlib.Core.List.{◌++◌}
use ch_api_authenticator.Base.{String, ◌==◌, Bool, List, [], ◌∷◌, if◌then◌else◌}
use ch_api_authenticator.Base.Lists.{contains}

-- A map is the list of its entries in the order of its iteration.
pub data RolesFormat : Type 0 where
  flat : List String → RolesFormat
  per_portal_many : List (String × List String) → RolesFormat
  per_portal_one : List (String × String) → RolesFormat

flatten_values : List (String × List String) → List String
flatten_values [] = []
flatten_values ((portal, roles) ∷ entries) = roles ++ flatten_values entries

values : List (String × String) → List String
values [] = []
values ((portal, role) ∷ entries) = role ∷ values entries

unfoldable pub collected : RolesFormat → List String
unfolding flatten_values values
collected (flat roles) = roles
collected (per_portal_many entries) = flatten_values entries
collected (per_portal_one entries) = values entries

-- `filter(|role| seen.insert(role.clone()))`: the state is the set of the roles seen.
filter_seen : List String → List String → List String
filter_seen seen [] = []
filter_seen seen (role ∷ roles) =
    let first = role ∷ filter_seen (role ∷ seen) roles in
    let again = filter_seen seen roles in if contains role seen then again else first

unfoldable pub distinct_roles : List String → List String
unfolding filter_seen
distinct_roles roles = filter_seen [] roles

unfoldable pub deserialize_roles : RolesFormat → List String
deserialize_roles format = distinct_roles (collected format)

-- ===== src/Domain/RolesFormat/Laws.antt =====
-- The list that `deserialize_roles` returns.
use ch_api_authenticator.Base.{
  String, eq_iff, ◌≡◌, refl, ap, false, ◌&&◌, not, List, [], ◌∷◌, arith,
}
use ch_api_authenticator.Base.Lists.{contains, Distinct}
use ch_api_authenticator.Domain.RolesFormat.{filter_seen, distinct_roles}

-- What is kept is what was there and had not been seen.
contains-filter_seen :
    (x : String) (seen roles : List String)
    → contains x (filter_seen seen roles) ≡ (contains x roles && not (contains x seen))
unfolding filter_seen
contains-filter_seen x seen [] = refl
contains-filter_seen x seen (r ∷ roles) =
    ground (
      arith,
      eq_iff r x,
      contains-filter_seen x seen roles,
      contains-filter_seen x (r ∷ seen) roles,
    )

filter_seen-Distinct : (seen roles : List String) → Distinct (filter_seen seen roles)
unfolding filter_seen
filter_seen-Distinct seen [] = tt
filter_seen-Distinct seen (r ∷ roles) = ground (
  arith,
  eq_iff r r,
  contains-filter_seen r (r ∷ seen) roles,
  filter_seen-Distinct seen roles,
  filter_seen-Distinct (r ∷ seen) roles,
)

-- Reading a list of roles without repeats keeps exactly the roles of the list.
pub contains-distinct_roles :
    (x : String) (roles : List String) → contains x (distinct_roles roles) ≡ contains x roles
unfolding distinct_roles
contains-distinct_roles x roles = ground (arith, contains-filter_seen x [] roles)

pub distinct_roles-Distinct : (roles : List String) → Distinct (distinct_roles roles)
unfolding distinct_roles
distinct_roles-Distinct roles = filter_seen-Distinct [] roles

-- No role of the list has been seen.
abbrev Fresh : List String → List String → Type 0
Fresh seen [] = Unit
Fresh seen (r ∷ roles) = (contains r seen ≡ false) × Fresh seen roles

Fresh-cons :
    (s : String) (seen roles : List String)
    → contains s roles ≡ false
    → Fresh seen roles
    → Fresh (s ∷ seen) roles
Fresh-cons s seen [] h f = tt
Fresh-cons s seen (r ∷ roles) h f = ground (arith, eq_iff r s, eq_iff s r, Fresh-cons s seen roles)

Fresh-nil : (roles : List String) → Fresh [] roles
Fresh-nil [] = tt
Fresh-nil (r ∷ roles) = (refl, Fresh-nil roles)

filter_seen_of_Fresh :
    (seen roles : List String) → Distinct roles → Fresh seen roles → filter_seen seen roles ≡ roles
unfolding filter_seen
filter_seen_of_Fresh seen [] d f = refl
filter_seen_of_Fresh seen (r ∷ roles) d f =
    rw f.0
      (ap (◌∷◌ r) (filter_seen_of_Fresh (r ∷ seen) roles d.1 (Fresh-cons r seen roles d.0 f.1)))

-- A list with no repeats is read unchanged.
pub distinct_roles_of_Distinct :
    (roles : List String) → Distinct roles → distinct_roles roles ≡ roles
unfolding distinct_roles
distinct_roles_of_Distinct roles d = filter_seen_of_Fresh [] roles d (Fresh-nil roles)

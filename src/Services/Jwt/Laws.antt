-- ===== src/Services/Jwt/Laws.antt =====
-- What an access token says, and for how long.
use mathlib.Core.List.{◌++◌}
use ch_api_authenticator.Base.{
  ℕ, ◌+◌, ◌≡◌, refl, ◌<◌, ◌^◌, String, ◌==◌, eq_iff, Bool, false, ◌||◌, Option, none, some, List,
  [], ◌∷◌, arith, ltb, if◌then◌else◌,
}
use ch_api_authenticator.Base.Lists.{any, contains, Distinct}
use ch_api_authenticator.Domain.User.{ObjectId}
use ch_api_authenticator.Domain.RolesFormat.{distinct_roles, deserialize_roles, collected}
use ch_api_authenticator.Repository.Dates.{wrap64}
use ch_api_authenticator.Services.Jwt.{
  JwtCrate, JwtService, leeway, audience_of, push_new, audiences_from, audiences_for, claims_for,
  written, issue, validate,
}

-- A role of the list has the audience.
abbrev pub grants : List (String × String) → String → String → Bool
grants entries audience role = elim (audience_of role entries) [
  | none ↦ false
  | some own ↦ own == audience
]

contains-append_one :
    (x y : String) (xs : List String) → contains x (xs ++ y ∷ []) ≡ (contains x xs || y == x)
contains-append_one x y [] = ground arith
contains-append_one x y (z ∷ xs) = ground (arith, contains-append_one x y xs)

Distinct-append_one :
    (y : String) (xs : List String) → Distinct xs → contains y xs ≡ false → Distinct (xs ++ y ∷ [])
Distinct-append_one y [] d h = (refl, tt)
Distinct-append_one y (x ∷ xs) d h =
    ground (arith, contains-append_one x y xs, eq_iff x y, eq_iff y x, Distinct-append_one y xs d.1)

module _ (entries : List (String × String)) where
  push_new-Distinct :
      (o : Option String) (xs : List String) → Distinct xs → Distinct (push_new o xs)
  push_new-Distinct none xs d = d
  push_new-Distinct (some a) xs d = ground (arith, Distinct-append_one a xs d)

  contains-push_new :
      (x : String) (o : Option String) (xs : List String)
      → contains x (push_new o xs) ≡ (contains x xs || elim o [ none ↦ false | some a ↦ a == x ])
  contains-push_new x none xs = ground arith
  contains-push_new x (some a) xs = ground (arith, contains-append_one x a xs, eq_iff a x)

  audiences_from-Distinct :
      (xs roles : List String) → Distinct xs → Distinct (audiences_from entries xs roles)
  unfolding audiences_from
  audiences_from-Distinct xs [] d = d
  audiences_from-Distinct xs (role ∷ roles) d =
      audiences_from-Distinct (push_new (audience_of role entries) xs) roles
        (push_new-Distinct (audience_of role entries) xs d)

  contains-audiences_from :
      (x : String) (xs roles : List String)
      → contains x (audiences_from entries xs roles)
        ≡ (contains x xs || any (grants entries x) roles)
  unfolding audiences_from
  contains-audiences_from x xs [] = ground arith
  contains-audiences_from x xs (role ∷ roles) = ground (
    arith,
    contains-push_new x (audience_of role entries) xs,
    contains-audiences_from x (push_new (audience_of role entries) xs) roles,
  )

-- The audiences of a token are those of the account's roles, each once.
pub audiences_for_lem :
    (service : JwtService) (roles : List String)
    → Distinct (audiences_for service roles)
      × ((audience : String)
          → contains audience (audiences_for service roles)
            ≡ any (grants service.audiences_by_role audience) roles)
unfolding audiences_for
audiences_for_lem service roles = (
  audiences_from-Distinct service.audiences_by_role [] roles tt,
  λ audience. contains-audiences_from service.audiences_by_role audience [] roles,
)

module _ (jwt : JwtCrate) (to_hex : ObjectId → String) where
  -- A token that was issued at `issued` validates as the claims it was issued with, the roles without
  -- repeats, until its time to live and the leeway have passed, and as nothing later.
  pub validate-issue :
      (service : JwtService) (issued now : ℕ) (id : ObjectId) (roles : List String)
      (ip : Option String) (token : String)
      → issued + service.ttl < 2 ^ 64
      → issue jwt to_hex service issued id roles ip ≡ some token
      → validate jwt service now token ≡ (
          if ltb (issued + service.ttl + leeway) now
          then none
          else some (record (claims_for jwt to_hex service issued id roles ip) {
            roles = distinct_roles roles;
          }))
  unfolding issue validate claims_for deserialize_roles collected
  validate-issue service issued now id roles ip token fits e =
      let exact : wrap64 (issued + service.ttl) ≡ issued + service.ttl = omega arith in
      ground (
        arith,
        exact,
        jwt.decode-encode service.secret now
            (written (claims_for jwt to_hex service issued id roles ip)) token e,
      )

-- ===== src/Service/Routes/Laws.antt =====
-- The versioned routes and the bare ones lead to the same handlers.
use mathlib.Core.List.{append-nil}
use ch_api_authenticator.Base.{Bool-cases, ap, eq_iff, if◌then◌else◌, inl, inr, subst, sym, ◌∙◌}
use mathlib.Core.List.{◌++◌}
use ch_api_authenticator.Service.Routes.{
  Method, Route, api_version_prefix, candidates, internal_routes, nest, operational_routes,
  public_routes, router,
}
use ch_api_authenticator.Base.{List, String, [], arith, eq_refl, false, refl, ◌==◌, ◌∷◌, ◌≡◌}

candidates-append :
    (method : Method) (path : List String) (rs ss : List Route)
    → candidates method path (rs ++ ss) ≡ candidates method path rs ++ candidates method path ss
candidates-append method path [] ss = refl
candidates-append method path (r ∷ rs) ss = ground (arith, candidates-append method path rs ss)

candidates-nest :
    (prefix : String) (method : Method) (path : List String) (rs : List Route)
    → candidates method (prefix ∷ path) (nest prefix rs) ≡ nest prefix (candidates method path rs)
candidates-nest prefix method path [] = refl
candidates-nest prefix method path (r ∷ rs) =
    ground (arith, eq_refl prefix, candidates-nest prefix method path rs)

-- A first segment that is not the prefix fits no nested route.
candidates-nest_other :
    (prefix first : String) (method : Method) (path : List String) (rs : List Route)
    → first == prefix ≡ false
    → candidates method (first ∷ path) (nest prefix rs) ≡ []
candidates-nest_other prefix first method path [] other = refl
candidates-nest_other prefix first method path (r ∷ rs) other =
    ground (arith, candidates-nest_other prefix first method path rs)

-- No bare route starts with the prefix.
bare_operational :
    (method : Method) (path : List String)
    → candidates method (api_version_prefix ∷ path) operational_routes ≡ []
unfolding operational_routes
bare_operational method path = refl

bare_public :
    (method : Method) (path : List String)
    → candidates method (api_version_prefix ∷ path) public_routes ≡ []
unfolding public_routes
bare_public method path = refl

bare_internal :
    (method : Method) (path : List String)
    → candidates method (api_version_prefix ∷ path) internal_routes ≡ []
unfolding internal_routes
bare_internal method path = refl

candidates-router :
    (method : Method) (path : List String)
    → candidates method path router
      ≡ candidates method path operational_routes
        ++ (candidates method path (nest api_version_prefix public_routes)
            ++ (candidates method path public_routes ++ candidates method path internal_routes))
unfolding router
candidates-router method path =
    candidates-append method path operational_routes _
    ∙ ap (λ l. candidates method path operational_routes ++ l)
        (candidates-append method path (nest api_version_prefix public_routes) _
          ∙ ap (λ l. candidates method path (nest api_version_prefix public_routes) ++ l)
              (candidates-append method path public_routes internal_routes))

-- A path under the version's prefix fits exactly the public routes that its rest fits, and any other
-- path fits exactly the operational, the public and the internal routes as they are written: one
-- and the same public handlers serve both forms of a path.
pub versions_agree :
    (method : Method) (first : String) (rest : List String)
    → candidates method (first ∷ rest) router ≡ (
        if first == api_version_prefix
        then nest api_version_prefix (candidates method rest public_routes)
        else candidates method (first ∷ rest) operational_routes
          ++ (candidates method (first ∷ rest) public_routes
              ++ candidates method (first ∷ rest) internal_routes))
versions_agree method first rest = elim (Bool-cases (first == api_version_prefix)) [
  | inl same ↦ rw same (
      subst
        (λ f.
          candidates method (f ∷ rest) router
          ≡ nest api_version_prefix (candidates method rest public_routes))
        (sym ((eq_iff first api_version_prefix).0 same))
        (candidates-router method (api_version_prefix ∷ rest)
          ∙ ground (
            arith,
            bare_operational method rest,
            bare_public method rest,
            bare_internal method rest,
            candidates-nest api_version_prefix method rest public_routes,
            append-nil (nest api_version_prefix (candidates method rest public_routes)),
          )))
  | inr other ↦ rw other (
      candidates-router method (first ∷ rest)
      ∙ ap
          (λ l.
            candidates method (first ∷ rest) operational_routes
            ++ (l
                ++ (candidates method (first ∷ rest) public_routes
                    ++ candidates method (first ∷ rest) internal_routes)))
          (candidates-nest_other api_version_prefix first method rest public_routes other))
]

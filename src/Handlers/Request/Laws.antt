-- ===== src/Handlers/Request/Laws.antt =====
-- What a request that is let through has shown.
use ch_api_authenticator.Handlers.Request.{checked}
use ch_api_authenticator.Handlers.Request.{accepted}
use ch_api_authenticator.Validation.{ValidationError, check}
use ch_api_authenticator.Exec.{Result, err, ok}
use ch_api_authenticator.Base.{List, [], ap, arith, refl, subst, ◌∷◌, ◌≡◌}
use ch_api_authenticator.Error.{AppError, JsonRejection}

pub check-eq-ok :
    (iterate : List ValidationError → List ValidationError) (errors : List ValidationError)
    → check iterate errors ≡ ok tt
    → errors ≡ []
unfolding check
check-eq-ok iterate [] e = refl
check-eq-ok iterate (error ∷ errors) e = cc

module _ {A : Type 0} (iterate : List ValidationError → List ValidationError) where
  checked-eq-ok :
      (request a : A) (r : Result AppError (Unit {0}))
      → checked iterate request r ≡ ok a
      → (request ≡ a) × (r ≡ ok tt)
  checked-eq-ok request a (ok valid) e = ground arith
  checked-eq-ok request a (err error) e = cc

  pub accepted-eq-ok :
      (errors : A → List ValidationError) (payload : Result JsonRejection A) (request : A)
      → accepted iterate errors payload ≡ ok request
      → (payload ≡ ok request) × (errors request ≡ [])
  unfolding accepted
  accepted-eq-ok errors (ok a) request e =
      let (same, checks) = checked-eq-ok a request (check iterate (errors a)) e in
      (ap ok same, subst (λ r. errors r ≡ []) same (check-eq-ok iterate (errors a) checks))
  accepted-eq-ok errors (err rejection) request e = cc

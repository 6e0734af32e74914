-- ===== src/Middleware/Auth/Refusals.antt =====
-- With which errors a request is refused.
use ch_api_authenticator.Middleware.Auth.{then_admin}
use ch_api_authenticator.Middleware.Auth.{claims_of}
use ch_api_authenticator.Middleware.Auth.{portal_admin, require_admin}
use ch_api_authenticator.Exec.{Result, err, ok, ok_or}
use ch_api_authenticator.Base.{Option, String, arith, inl, inr, none, refl, some, ℕ, ◌≡◌, ◌⊎◌}
use ch_api_authenticator.Services.Net.{Headers}
use ch_api_authenticator.Services.Jwt.{Claims, JwtCrate, JwtService}
use ch_api_authenticator.Error.{AppError, invalid_token, status_of}

ok_or-eq-err : {A : Type 0} (o : Option A) (e f : AppError) → ok_or o e ≡ err f → f ≡ e
ok_or-eq-err none e f h = ground arith
ok_or-eq-err (some a) e f h = cc

module _ (jwt : JwtCrate) (service : JwtService) (cookie_name : String) where
  claims_of-eq-err :
      (now : ℕ) (token : Option String) (e : AppError)
      → claims_of jwt service cookie_name now token ≡ err e
      → e ≡ invalid_token
  claims_of-eq-err now none e h = ground arith
  claims_of-eq-err now (some token) e h = ok_or-eq-err _ invalid_token e h

  then_admin-status :
      (r : Result AppError Claims) (e : AppError)
      → ((f : AppError) → r ≡ err f → f ≡ invalid_token)
      → then_admin jwt service cookie_name r ≡ err e
      → (status_of e ≡ 401) ⊎ (status_of e ≡ 403)
  unfolding require_admin status_of
  then_admin-status (ok claims) e only h = inr (ground arith)
  then_admin-status (err f) e only h = inl (ground (arith, only f refl))

  -- The two refusals of `PortalAdmin`.
  pub portal_admin-status :
      (now : ℕ) (headers : Headers) (e : AppError)
      → portal_admin jwt service cookie_name now headers ≡ err e
      → (status_of e ≡ 401) ⊎ (status_of e ≡ 403)
  unfolding portal_admin
  portal_admin-status now headers e h = then_admin-status _ e (claims_of-eq-err now _) h

-- ===== src/Handlers/Request.antt =====
-- What a handler takes from its request before its body runs: the extractors `AuthUser` and
-- `PortalAdmin` of middleware/auth.rs, and the payload with its checks.
pub mod Laws
use ch_api_authenticator.Repository.Users.{database}
use ch_api_authenticator.Middleware.Auth.{auth_user, portal_admin}
use ch_api_authenticator.Validation.{ValidationError, check}
use ch_api_authenticator.Repository.Users.{RepositoryError, duplicate_email}
use ch_api_authenticator.Services.Jwt.{Claims}
use ch_api_authenticator.Base.{Bool, List, false, true}
use ch_api_authenticator.Error.{
  AppError, JsonRejection, conflict, from_rejection, internal, validation,
}
use ch_api_authenticator.State.{Ambient, AppState, Handler, Platform, seconds}
use ch_api_authenticator.Exec.{Result, ok, err, lift}

module _ (x : Platform) (state : AppState) (ambient : Ambient) where
  -- AuthUser(claims): AuthUser
  unfoldable pub signed_in : Handler Claims
  signed_in = lift (
      auth_user x.jwt state.jwt state.settings.config.token.cookie_name (seconds (ambient.clock 0))
        ambient.headers)

  -- PortalAdmin(admin): PortalAdmin
  unfoldable pub administrator : Handler Claims
  administrator = lift (
      portal_admin x.jwt state.jwt state.settings.config.token.cookie_name
        (seconds (ambient.clock 0)) ambient.headers)

module _ {A : Type 0} (iterate : List ValidationError → List ValidationError) where
  abbrev checked : A → Result AppError (Unit {0}) → Result AppError A
  checked request (ok valid) = ok request
  checked request (err e) = err e

  -- `let Json(request) = payload?; validation::check(&request)?;`
  unfoldable pub accepted : (A → List ValidationError) → Result JsonRejection A → Result AppError A
  accepted errors (ok request) = checked request (check iterate (errors request))
  accepted errors (err rejection) = err (from_rejection rejection)

-- `match state.users.update_email(..).await`: the error `missing` where there is no account.
abbrev pub email_written : AppError → Result RepositoryError Bool → Result AppError (Unit {0})
email_written missing (ok true) = ok tt
email_written missing (ok false) = err missing
email_written missing (err duplicate_email) = err (conflict "email déjà utilisé")
email_written missing (err (database e)) = err internal

abbrev pub name_required : AppError
name_required = validation "le nom est requis"

-- ===== src/Handlers/Register.antt =====
-- handlers/register.rs.
pub mod Laws
pub mod Steps
use ch_api_authenticator.Validation.{require}
use mathlib.Core.List
use ch_api_authenticator.Repository.Users.{insert}
use ch_api_authenticator.Repository.Users.{database}
use ch_api_authenticator.Domain.User.{new}
use ch_api_authenticator.Repository.Settings.{registration_enabled}
use ch_api_authenticator.Handlers.Request.{name_required}
use ch_api_authenticator.Base.Text.{is_empty, trim}
use ch_api_authenticator.Validation.{
  ValidationError, check, field_error, validate_password_strength,
}
use ch_api_authenticator.Repository.Users.{RepositoryError, duplicate_email}
use ch_api_authenticator.Domain.User.{
  ObjectId, User, accept_terms, current_terms_version, pending_validation,
}
use ch_api_authenticator.Base.{List, Option, String, if◌then◌else◌, none, not, some, ◌==◌}
use ch_api_authenticator.Error.{
  AppError, JsonRejection, conflict, forbidden, from_rejection, internal, terms_not_accepted,
  terms_version_mismatch,
}
use ch_api_authenticator.State.{
  Ambient, AppState, Handler, Platform, in_settings, in_users, or_internal,
}
use ch_api_authenticator.Exec.{
  Result, ok, err, ok_or, lift, lift_err, pure, attempt, guard, ◌>>=◌, ◌>>◌,
}

pub record RegisterRequest : Type 0 where
  pub name : String
  pub email : String
  pub password : String
  pub accepted_terms_version : Option String

-- `.map(str::trim).filter(|version| !version.is_empty()).ok_or(AppError::TermsNotAccepted)`, and the
-- comparison with the current version.
unfoldable pub accepted_terms : Option String → Result AppError (Unit {0})
accepted_terms none = err terms_not_accepted
accepted_terms (some version) =
    if is_empty (trim version)
    then err terms_not_accepted
    else if trim version == current_terms_version
    then ok tt
    else err terms_version_mismatch

-- `match state.users.insert(&user).await`
abbrev pub inserted_id : Result RepositoryError ObjectId → Result AppError ObjectId
inserted_id (ok id) = ok id
inserted_id (err duplicate_email) = err (conflict "email déjà utilisé")
inserted_id (err (database e)) = err internal

module _ (x : Platform) (state : AppState) (ambient : Ambient) where
  abbrev pub register_errors : RegisterRequest → List ValidationError
  register_errors request =
      List.◌++◌ (require "length" "le nom est requis" (not (is_empty request.name))) (
        List.◌++◌ (require "email" "format d'email invalide" (x.is_email request.email))
          (field_error (validate_password_strength x.unicode x.compromised request.password)))

  -- The account that is inserted; the three readings of the clock are of one account.
  unfoldable pub registered : RegisterRequest → String → User
  registered request password_hash =
      accept_terms (ambient.clock 1) current_terms_version
        (record (new x.unicode.to_lowercase (ambient.clock 0) request.email password_hash
          state.settings.config.registration.default_roles) {
            name = trim request.name;
            status = pending_validation;
          })

  -- The text of the `user_id` that the answer holds.
  unfoldable pub register : Result JsonRejection RegisterRequest → Handler String
  register payload = do
    request ← lift_err from_rejection payload
    enabled ← or_internal (in_settings (registration_enabled x.settings))
    lift (guard enabled (forbidden "les inscriptions sont désactivées"))
    lift (check x.iterate (register_errors request))
    lift (guard (not (is_empty (trim request.name))) name_required)
    lift (accepted_terms request.accepted_terms_version)
    password_hash ← lift (ok_or (x.crypto.hash_password ambient.salt request.password) internal)
    inserted ← attempt (in_users (insert x.users (registered request password_hash)))
    id ← lift (inserted_id inserted)
    pure (x.to_hex id)

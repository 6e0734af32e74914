-- ===== src/Handlers/Password.antt =====
-- handlers/password.rs: a password is changed by its owner, or reset by a token sent to them.
pub mod Forgot
pub mod Laws
pub mod Steps
use mathlib.Core.List
use ch_api_authenticator.Validation.{require}
use ch_api_authenticator.Repository.Users.{find_by_id}
use ch_api_authenticator.Repository.Dates.{wrap64}
use ch_api_authenticator.Repository.RefreshTokens.{revoke_all_for_user}
use ch_api_authenticator.Services.ClientIp.{resolve}
use ch_api_authenticator.Repository.Users.{find_by_email, update_password}
use ch_api_authenticator.Base.Text.{decimal, is_empty}
use ch_api_authenticator.Repository.ResetTokens.{consume, replace_for_user}
use ch_api_authenticator.Handlers.Request.{accepted, signed_in}
use ch_api_authenticator.Validation.{ValidationError, field_error, validate_password_strength}
use ch_api_authenticator.Domain.User.{ObjectId, User, normalize_email}
use ch_api_authenticator.Base.{List, Option, String, none, not, some, ℕ, ◌*◌, ◌++◌}
use ch_api_authenticator.Error.{
  AppError, JsonRejection, internal, invalid_token, unauthorized, validation,
}
use ch_api_authenticator.State.{
  Ambient, AppState, Email, Handler, Platform, enforce_forgot, expect, in_refresh_tokens,
  in_reset_tokens, in_users, or_internal, send_email,
}
use ch_api_authenticator.Exec.{Result, ok_or, lift, pure, attempt, guard, ◌>>=◌, ◌>>◌}

pub record ForgotRequest : Type 0 where
  pub email : String

pub record ResetRequest : Type 0 where
  pub token : String
  pub new_password : String

pub record ChangePasswordRequest : Type 0 where
  pub current_password : String
  pub new_password : String

abbrev pub invalid_reset_token : AppError
invalid_reset_token = validation "token invalide ou expiré"

module _ (x : Platform) where
  abbrev pub strength_errors : String → List ValidationError
  strength_errors password =
      field_error (validate_password_strength x.unicode x.compromised password)

  abbrev pub change_errors : ChangePasswordRequest → List ValidationError
  change_errors request =
      List.◌++◌
        (require "length" "mot de passe actuel requis" (not (is_empty request.current_password)))
        (strength_errors request.new_password)

  abbrev pub forgot_errors : ForgotRequest → List ValidationError
  forgot_errors request = require "email" "format d'email invalide" (x.is_email request.email)

  abbrev pub reset_errors : ResetRequest → List ValidationError
  reset_errors request =
      List.◌++◌ (require "length" "token requis" (not (is_empty request.token)))
        (strength_errors request.new_password)

  -- `if let Err(e) = ..revoke_all_for_user(user_id).await { tracing::error!(..) }`
  unfoldable pub revoke_sessions : ObjectId → Handler (Unit {0})
  revoke_sessions user_id = do
    attempt {F = AppError} (in_refresh_tokens (revoke_all_for_user x.refresh_tokens user_id))
    pure tt

module _ (x : Platform) (state : AppState) (ambient : Ambient) where
  unfoldable pub change : Result JsonRejection ChangePasswordRequest → Handler String
  change payload = do
    claims ← signed_in x state ambient
    request ← lift (accepted x.iterate (change_errors x) payload)
    user_id ← lift (ok_or (x.parse_str claims.sub) invalid_token)
    found ← or_internal (in_users (find_by_id x.users user_id))
    user ← lift (ok_or found invalid_token)
    lift (guard (x.crypto.verify_password request.current_password user.password_hash) unauthorized)
    password_hash ← lift (ok_or (x.crypto.hash_password ambient.salt request.new_password) internal)
    updated ←
        or_internal (in_users (update_password x.users (ambient.clock 1) user_id password_hash))
    lift (guard updated invalid_token)
    revoke_sessions x user_id
    pure "Mot de passe changé."

  -- In seconds.
  abbrev pub reset_ttl : ℕ
  reset_ttl = wrap64 (state.settings.config.password_reset.ttl_minutes * 60)

  abbrev pub reset_email : User → Email
  reset_email user = record {
    to = user.email;
    subject = "Réinitialisation de votre mot de passe CustHome";
    text =
        "Bonjour,\n\nPour définir un nouveau mot de passe, ouvrez ce lien (valable "
        ++ decimal state.settings.config.password_reset.ttl_minutes
        ++ " minutes) :\n"
        ++ state.settings.config.password_reset.url
        ++ "?token="
        ++ ambient.token
        ++ "\n\nSi vous n'êtes pas à l'origine de cette demande, ignorez cet email.";
  }

  -- The body of `if let Some(user)`.
  unfoldable pub offer_reset : Option User → Handler (Unit {0})
  offer_reset none = pure tt
  offer_reset (some user) = do
    user_id ← lift (expect user.id)
    or_internal (
        in_reset_tokens (
          replace_for_user x.reset_tokens (ambient.clock 0) user_id
            (x.crypto.hash_token ambient.token) reset_ttl))
    send_email (reset_email user)

  unfoldable pub forgot : Result JsonRejection ForgotRequest → Handler String
  forgot payload = do
    request ← lift (accepted x.iterate (forgot_errors x) payload)
    let client_ip = resolve x.net state.trusted_proxies ambient.peer ambient.headers
    enforce_forgot x.governor ambient.limiter_clock
        (x.net.show_ip client_ip ++ "|" ++ normalize_email x.unicode.to_lowercase request.email)
    found ← or_internal (in_users (find_by_email x.users x.unicode.to_lowercase request.email))
    offer_reset found
    pure "Si un compte existe pour cet email, un lien de réinitialisation a été envoyé."

  unfoldable pub reset : Result JsonRejection ResetRequest → Handler String
  reset payload = do
    request ← lift (accepted x.iterate (reset_errors x) payload)
    found ← or_internal (
        in_reset_tokens
          (consume x.reset_tokens (ambient.clock 0) (x.crypto.hash_token request.token)))
    consumed ← lift (ok_or found invalid_reset_token)
    password_hash ← lift (ok_or (x.crypto.hash_password ambient.salt request.new_password) internal)
    updated ←
        or_internal
          (in_users (update_password x.users (ambient.clock 1) consumed.user_id password_hash))
    lift (guard updated invalid_reset_token)
    revoke_sessions x consumed.user_id
    pure "Mot de passe réinitialisé."

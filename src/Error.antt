-- ===== src/Error.antt =====
-- error.rs: the errors of the API and the HTTP response that each becomes.
use ch_api_authenticator.Base.{ℕ, String, ◌++◌, Option, none, some}
use ch_api_authenticator.Base.Text.{decimal}

pub data AppError : Type 0 where
  validation : String → AppError
  unauthorized invalid_token : AppError
  forbidden conflict not_found : String → AppError
  terms_not_accepted terms_version_mismatch : AppError
  account_pending account_disabled device_not_allowed : AppError
  too_many_requests : ℕ → AppError
  internal : AppError

-- axum's `JsonRejection`; `other` stands for its remaining variants.
pub data JsonRejection : Type 0 where
  json_data_error json_syntax_error missing_json_content_type other : JsonRejection

rejection_message : JsonRejection → String
rejection_message json_data_error =
    "Données invalides : un ou plusieurs champs sont incorrects ou manquants."
rejection_message json_syntax_error = "Le corps de la requête n'est pas un JSON valide."
rejection_message missing_json_content_type = "En-tête « Content-Type: application/json » manquant."
rejection_message other = "Requête invalide."

-- `impl From<JsonRejection> for AppError`
unfoldable pub from_rejection : JsonRejection → AppError
unfolding rejection_message
from_rejection rejection = validation (rejection_message rejection)

-- The `Display` of an error, which `thiserror` derives from the attributes.
unfoldable pub to_string : AppError → String
to_string (validation message) = "requête invalide : " ++ message
to_string unauthorized = "identifiants invalides"
to_string invalid_token = "token invalide ou expiré"
to_string (forbidden message) = message
to_string (conflict message) = message
to_string (not_found message) = message
to_string terms_not_accepted = "l'acceptation des conditions générales d'utilisation est requise"
to_string terms_version_mismatch =
    "la version des conditions générales d'utilisation acceptée n'est pas la version courante"
to_string account_pending = "compte en attente de validation par un administrateur"
to_string account_disabled = "compte désactivé"
to_string device_not_allowed = "vous n'êtes pas autorisé à vous connecter avec cet appareil"
to_string (too_many_requests _) = "trop de requêtes, réessayez plus tard"
to_string internal = "erreur interne"

-- The `match &self` of `into_response`, its two columns apart.
unfoldable pub status_of : AppError → ℕ
status_of (validation _) = 400
status_of unauthorized = 401
status_of invalid_token = 401
status_of (forbidden _) = 403
status_of (conflict _) = 409
status_of terms_not_accepted = 422
status_of terms_version_mismatch = 422
status_of (not_found _) = 404
status_of account_pending = 403
status_of account_disabled = 403
status_of device_not_allowed = 403
status_of (too_many_requests _) = 429
status_of internal = 500

unfoldable pub error_of : AppError → String
error_of (validation _) = "bad_request"
error_of unauthorized = "unauthorized"
error_of invalid_token = "unauthorized"
error_of (forbidden _) = "forbidden"
error_of (conflict _) = "conflict"
error_of terms_not_accepted = "terms_not_accepted"
error_of terms_version_mismatch = "terms_version_mismatch"
error_of (not_found _) = "not_found"
error_of account_pending = "account_pending"
error_of account_disabled = "account_disabled"
error_of device_not_allowed = "device_not_allowed"
error_of (too_many_requests _) = "too_many_requests"
error_of internal = "internal_error"

unfoldable pub retry_after_of : AppError → Option String
retry_after_of (too_many_requests retry_after_secs) = some (decimal retry_after_secs)
retry_after_of _ = none

-- What the client receives: the status, the `Retry-After` header and the two fields of the body.
pub record ErrorResponse : Type 0 where
  pub status : ℕ
  pub retry_after : Option String
  pub error : String
  pub message : String

unfoldable pub into_response : AppError → ErrorResponse
unfolding status_of error_of to_string retry_after_of
into_response e = record {
  status = status_of e;
  retry_after = retry_after_of e;
  error = error_of e;
  message = to_string e;
}

-- ===== src/Examples/Accounts.antt =====
-- A registration, and passwords that are changed and reset.
use ch_api_authenticator.Handlers.Validate.{trimmed}
use ch_api_authenticator.Base.{none, ◌⊎◌}
use ch_api_authenticator.Domain.Role.{Portal, from_portal_header}
use ch_api_authenticator.Validation.{normalize_password}
use ch_api_authenticator.Validation.{is_strong}
use ch_api_authenticator.Validation.{format_errors}
use ch_api_authenticator.Repository.Users.{update}
use ch_api_authenticator.Repository.RefreshTokens.{revoke_all_for_user}
use ch_api_authenticator.Middleware.Auth.{token_from_cookie}
use ch_api_authenticator.Error.{from_rejection}
use ch_api_authenticator.Domain.RolesFormat.{distinct_roles}
use ch_api_authenticator.Domain.RolesFormat.{deserialize_roles}
use ch_api_authenticator.Domain.RolesFormat.{collected}
use ch_api_authenticator.Base.Text.{trim_start}
use ch_api_authenticator.Base.Text.{trim_end}
use ch_api_authenticator.Base.Text.{split_once}
use ch_api_authenticator.Base.Text.{split}
use ch_api_authenticator.Base.Text.{is_space}
use ch_api_authenticator.Repository.Users.{find_by_id}
use ch_api_authenticator.Base.Text.{strip_prefix}
use ch_api_authenticator.Middleware.Auth.{token_from_bearer}
use ch_api_authenticator.Middleware.Auth.{extract_token}
use ch_api_authenticator.Middleware.Auth.{auth_user}
use ch_api_authenticator.Handlers.Request.{signed_in}
use ch_api_authenticator.State.{send_email}
use ch_api_authenticator.Repository.ResetTokens.{replace_for_user}
use ch_api_authenticator.Handlers.Password.{offer_reset}
use ch_api_authenticator.Repository.Users.{find_by_email}
use ch_api_authenticator.Services.RateLimit.{enforce}
use ch_api_authenticator.State.{enforce_forgot}
use ch_api_authenticator.Handlers.Password.{revoke_sessions}
use ch_api_authenticator.Repository.Users.{update_password}
use ch_api_authenticator.Repository.ResetTokens.{consume}
use ch_api_authenticator.Handlers.Request.{accepted}
use ch_api_authenticator.Domain.User.{normalize_email}
use ch_api_authenticator.Domain.User.{new}
use ch_api_authenticator.Domain.User.{accept_terms}
use ch_api_authenticator.Handlers.Register.{registered}
use ch_api_authenticator.Repository.Users.{insert}
use ch_api_authenticator.Handlers.Register.{accepted_terms}
use ch_api_authenticator.Base.Text.{trim}
use ch_api_authenticator.Validation.{compromised_passwords}
use ch_api_authenticator.Validation.{is_compromised}
use ch_api_authenticator.Validation.{validate_password_strength}
use ch_api_authenticator.Validation.{field_error}
use ch_api_authenticator.Validation.{require}
use ch_api_authenticator.Validation.{check}
use ch_api_authenticator.Repository.Settings.{registration_enabled}
use ch_api_authenticator.Exec.{◌>>=◌}
use ch_api_authenticator.Handlers.Validate.Laws.{validate_iff}
use ch_api_authenticator.Examples.Instances.{unary}
use ch_api_authenticator.Base.Text.{join}
use ch_api_authenticator.Examples.Scenario.{ambient, headers, platform, state, world}
use ch_api_authenticator.Handlers.Validate.{ValidateResponse, bearer_token}
use ch_api_authenticator.Base.{String, [], refl, some, ◌↔◌, ◌≡◌, ◌≢◌}
use ch_api_authenticator.Exec.{Result, ok}
use ch_api_authenticator.Handlers.Register.{RegisterRequest, register}
use ch_api_authenticator.Error.{JsonRejection}
use ch_api_authenticator.Handlers.Register.Laws.{IsRegistration, register-IsRegistration}
use ch_api_authenticator.Handlers.Password.Laws.{IsChange, IsReset, change-IsChange, reset-IsReset}
use ch_api_authenticator.Handlers.Password.Forgot.{IsAnswered, account_of, forgot-IsAnswered}
use ch_api_authenticator.Services.Jwt.{Claims}
use ch_api_authenticator.Handlers.Password.{
  ChangePasswordRequest, ForgotRequest, ResetRequest, change, forgot, reset,
}
use ch_api_authenticator.Services.Jwt
use ch_api_authenticator.Handlers.Validate.{validate}

abbrev register_request : Result JsonRejection RegisterRequest
register_request = ok (record {
  name = " John ";
  email = "john@x";
  password = "New-password-2";
  accepted_terms_version = some "v1";
})

register-IsRegistration_example :
    (request : RegisterRequest) × (register_request ≡ ok request)
    × IsRegistration platform state ambient world
        (register platform state ambient register_request world).1
        request
        (unary 20)
unfolding register ◌>>=◌ registration_enabled check require field_error validate_password_strength
    is_compromised compromised_passwords trim accepted_terms insert registered accept_terms new
    normalize_email
register-IsRegistration_example =
    register-IsRegistration platform state ambient world register_request (unary 20) refl

abbrev change_request : Result JsonRejection ChangePasswordRequest
change_request =
    ok (record { current_password = "Old-password-1"; new_password = "New-password-2" })

change-IsChange_example :
    (request : ChangePasswordRequest) × (change_request ≡ ok request)
    × IsChange platform state ambient world
        (change platform state ambient change_request world).1
        request
unfolding change ◌>>=◌ signed_in auth_user extract_token token_from_bearer strip_prefix trim
    Jwt.validate accepted check require field_error validate_password_strength is_compromised
    compromised_passwords find_by_id update_password is_space join split split_once trim_end
    trim_start collected deserialize_roles distinct_roles from_rejection revoke_sessions
    token_from_cookie revoke_all_for_user update format_errors is_strong normalize_password
change-IsChange_example =
    change-IsChange platform state ambient world change_request "Mot de passe changé." refl

abbrev reset_request : Result JsonRejection ResetRequest
reset_request = ok (record { token = "reset"; new_password = "New-password-2" })

reset-IsReset_example :
    (request : ResetRequest) × (reset_request ≡ ok request)
    × IsReset platform state ambient world
        (reset platform state ambient reset_request world).1
        request
unfolding reset ◌>>=◌ accepted check require field_error validate_password_strength is_compromised
    compromised_passwords consume update_password revoke_sessions
reset-IsReset_example =
    reset-IsReset platform state ambient world reset_request "Mot de passe réinitialisé." refl

abbrev forgot_request : Result JsonRejection ForgotRequest
forgot_request = ok (record { email = " jane@x " })

abbrev answer : String
answer = "Si un compte existe pour cet email, un lien de réinitialisation a été envoyé."

forgot-IsAnswered_example :
    (request : ForgotRequest) × (forgot_request ≡ ok request)
    × (answer ≡ answer)
    × IsAnswered platform state ambient
        (account_of platform state ambient request world)
        world.reset_tokens
        world.emails
        (forgot platform state ambient forgot_request world).1
unfolding forgot ◌>>=◌ accepted check require enforce_forgot enforce find_by_email offer_reset
    normalize_email trim replace_for_user send_email
forgot-IsAnswered_example =
    forgot-IsAnswered platform state ambient world forgot_request answer refl

abbrev the_answer : ValidateResponse
the_answer = record { user_id = unary 7; role = "admin" }

validate_iff_example : (validate platform.jwt state.jwt 1000 headers ≡ ok the_answer) ↔ (
    (token : String) × (own : Claims) × (bearer_token headers ≡ some token)
    × (Jwt.validate platform.jwt state.jwt 1000 token ≡ some own)
    × ((own.ip ≡ none)
        ⊎ ((bound : String) × (own.ip ≡ some bound)
            × (trimmed (headers "x-client-ip") ≡ some bound)))
    × (value : String) × (portal : Portal) × (headers "x-portal" ≡ some value)
    × (from_portal_header (trim value) ≡ some portal)
    × (own.roles ≢ [])
    × (the_answer ≡ record { user_id = own.sub; role = join "," own.roles }))
validate_iff_example = validate_iff platform.jwt state.jwt 1000 headers the_answer

-- ===== src/Examples/Service.antt =====
-- Runs of the whole service: requests of an administrator, of the account's owner and of a stranger.
use ch_api_authenticator.Service.Requests.Steps.{given_of}
use ch_api_authenticator.Repository.Users.{add_allowed_ip}
use ch_api_authenticator.Validation.{require}
use ch_api_authenticator.Exec.{◌>>=◌}
use ch_api_authenticator.Repository.LoginEvents.{record_login}
use ch_api_authenticator.Handlers.Password.{offer_reset, revoke_sessions}
use ch_api_authenticator.Services.Whitelist.{ip_allowed}
use ch_api_authenticator.Repository.Users.{find_by_email, find_by_id}
use ch_api_authenticator.Repository.Dates.{expiry}
use ch_api_authenticator.State.{enforce_forgot, enforce_login, enforce_refresh, send_email}
use ch_api_authenticator.Services.RateLimit.{enforce}
use ch_api_authenticator.Domain.RolesFormat.{distinct_roles}
use ch_api_authenticator.Handlers.Session.Create.{create_session, create_session_in_family}
use ch_api_authenticator.Repository.RefreshTokens.{consume_for_rotation, create}
use ch_api_authenticator.Repository.ResetTokens.{consume, replace_for_user}
use ch_api_authenticator.Validation.{
  check, compromised_passwords, field_error, is_compromised, validate_password_strength,
}
use ch_api_authenticator.Services.Jwt.{audiences_for, issue}
use ch_api_authenticator.Handlers.Request.{accepted}
use ch_api_authenticator.Base.Text.{split_once}
use ch_api_authenticator.Handlers.Cookies.{pair_value}
use ch_api_authenticator.Base.Text.{split}
use ch_api_authenticator.Base.{eq_iff, false, true}
use ch_api_authenticator.Handlers.Cookies.{cookie_value}
use ch_api_authenticator.Service.History.Tokens.{DrawsOther}
use ch_api_authenticator.Service.History.Catalogue.{portal_roles_stay}
use ch_api_authenticator.Domain.Role.{drive}
use ch_api_authenticator.Service.Routes.Laws.{versions_agree}
use ch_api_authenticator.Base.Text.{trim}
use ch_api_authenticator.Handlers.Session.Create.{session_of}
use ch_api_authenticator.Service.Requests.Steps.{serve-Steps}
use ch_api_authenticator.Service.History.Once.{refresh_once, reset_once}
use ch_api_authenticator.Domain.User.{normalize_email}
use ch_api_authenticator.Exec.{err, ok}
use ch_api_authenticator.Service.Routes.{candidates, nest, public_routes, router}
use ch_api_authenticator.Middleware.Auth.{auth_user, extract_token, portal_admin}
use ch_api_authenticator.Examples.Scenario.{ambient, jane, platform, state, viewer, world}
use ch_api_authenticator.Base.{[], if◌then◌else◌, none, refl, some, ◌==◌, ◌∷◌, ◌≡◌, ◌≢◌, ◌⊎◌}
use ch_api_authenticator.Service.Policy.{Steps}
use ch_api_authenticator.Domain.Role.{Role, is_portal_role, portal_role}
use ch_api_authenticator.Handlers.Password.{ResetRequest}
use ch_api_authenticator.Service.Requests.{Request, delete_role, forgot, login, serve}
use ch_api_authenticator.Service.History.Rights.{IsHarmless, no_escalation}
use ch_api_authenticator.Handlers.Admin.Laws.{IsAdministrator}
use ch_api_authenticator.Service.History.{History, serves, start}
use ch_api_authenticator.Service.History.Catalogue.{HasPortalRole}
use ch_api_authenticator.Error.{AppError, status_of}
use ch_api_authenticator.State.{Ambient, World}
use ch_api_authenticator.Service.History.Accounts.{AccountsAreSound, IsSound, accounts_stay_sound}
use ch_api_authenticator.Handlers.Session
use ch_api_authenticator.Handlers.Login
use ch_api_authenticator.Repository.Users.{update_password}
use ch_api_authenticator.Service.Requests.Guards.{administrators_only}
use ch_api_authenticator.Handlers.Password
use ch_api_authenticator.Service.Routes.{get}

-- The administrator deletes a role, and a stranger asks for the same.
abbrev by_administrator : Request
by_administrator = delete_role "aa"

abbrev stranger : Ambient
stranger = record ambient { headers = λ name. none }

serve-Steps_example :
    Steps platform state ambient
      (given_of by_administrator world)
      world
      (serve platform state ambient by_administrator world).1
serve-Steps_example = serve-Steps platform state ambient by_administrator world

abbrev Anything : Ambient → Type 0
Anything given = Unit {0}

after_deletion :
    History platform state Anything world (serve platform state ambient by_administrator world).1
after_deletion = serves ambient by_administrator tt start

jane-IsSound : IsSound platform jane
unfolding normalize_email trim
jane-IsSound = record {
  hashed = ("salt", "Old-password-1", refl);
  normal = ("jane@x", refl);
  reachable = refl;
}

accounts_stay_sound_example :
    AccountsAreSound platform (serve platform state ambient by_administrator world).1
accounts_stay_sound_example =
    accounts_stay_sound platform state Anything world
      (serve platform state ambient by_administrator world).1 after_deletion (jane-IsSound, tt)

-- The portal's role beside the viewer's.
abbrev drive_role : Role
drive_role = record (portal_role 5 drive) { id = some 3 }

abbrev catalogue : World
catalogue = record world { roles = record { docs = drive_role ∷ viewer ∷ []; seed = 20 } }

portal_roles_stay_example :
    HasPortalRole drive (serve platform state ambient by_administrator catalogue).1
unfolding portal_role is_portal_role
portal_roles_stay_example =
    portal_roles_stay platform state drive Anything catalogue
      (serve platform state ambient by_administrator catalogue).1
      (serves ambient by_administrator tt start) refl

stranger-outsider : ¬ (IsAdministrator platform state stranger)
unfolding portal_admin auth_user extract_token
stranger-outsider (given, valid) = cc

no_escalation_example :
    IsHarmless state world (serve platform state stranger by_administrator world).1
no_escalation_example =
    no_escalation platform state stranger by_administrator world stranger-outsider

administrators_only_example :
    IsAdministrator platform state stranger
    ⊎ ((e : AppError) × (serve platform state stranger by_administrator world ≡ (err e, world))
        × ((status_of e ≡ 401) ⊎ (status_of e ≡ 403)))
administrators_only_example =
    administrators_only platform state stranger by_administrator world refl

-- A login from a service with no tokens, a renewal with the token that it drew, and a second one.
abbrev no_tokens : World
no_tokens = record world {
  refresh_tokens = record { docs = []; seed = 20 };
  reset_tokens = record { docs = []; seed = 20 };
}

abbrev login_jane : Request
login_jane = login (ok (record { email = "jane@x"; password = "Old-password-1" }))

abbrev logged_in : World
logged_in = (serve platform state ambient login_jane no_tokens).1

abbrev renewal : Ambient
renewal = record ambient {
  headers = λ name. if name == "cookie" then some "refresh=r2" else none;
  token = "r3";
}

renewed :
    (Session.refresh platform state renewal logged_in).0
    ≡ ok (session_of platform state "token" "r3")
unfolding Session.refresh serve Login.login ◌>>=◌ check require enforce_login enforce_refresh
    enforce find_by_email find_by_id normalize_email trim ip_allowed create_session
    create_session_in_family issue distinct_roles audiences_for create cookie_value split pair_value
    split_once consume_for_rotation record_login expiry add_allowed_ip
renewed = refl

presented : cookie_value renewal.headers "refresh" ≡ some "r2"
unfolding cookie_value split pair_value split_once trim
presented = refl

draws_other : DrawsOther platform "r2" renewal
draws_other same = let e : false ≡ true = (eq_iff "r3" "r2").1 same in cc

refresh_once_example :
    (Session.refresh platform state renewal (Session.refresh platform state renewal logged_in).1).0
    ≢ ok (session_of platform state "token" "r4")
refresh_once_example =
    refresh_once platform state renewal renewal "r2" no_tokens logged_in
      (Session.refresh platform state renewal logged_in).1 (session_of platform state "token" "r3")
      (session_of platform state "token" "r4") refl (serves ambient login_jane tt start) presented
      presented draws_other renewed start

abbrev forgot_jane : Request
forgot_jane = forgot (ok (record { email = "jane@x" }))

abbrev offered : World
offered = (serve platform state ambient forgot_jane no_tokens).1

abbrev new_password : ResetRequest
new_password = record { token = "r2"; new_password = "New-password-1" }

was_reset :
    (Password.reset platform state ambient (ok new_password) offered).0
    ≡ ok "Mot de passe réinitialisé."
unfolding Password.reset serve Password.forgot ◌>>=◌ accepted check require field_error
    validate_password_strength is_compromised compromised_passwords consume update_password
    revoke_sessions enforce_forgot enforce find_by_email offer_reset normalize_email trim
    replace_for_user send_email expiry
was_reset = refl

reset_once_example :
    (Password.reset platform state ambient
      (ok new_password)
      (Password.reset platform state ambient (ok new_password) offered).1).0
    ≢ ok "Mot de passe réinitialisé."
reset_once_example =
    reset_once platform state ambient ambient new_password new_password no_tokens offered
      (Password.reset platform state ambient (ok new_password) offered).1
      "Mot de passe réinitialisé." "Mot de passe réinitialisé." refl
      (serves ambient forgot_jane tt start) refl was_reset start

versions_agree_example :
    candidates get ("v1" ∷ "users" ∷ "7" ∷ []) router
    ≡ nest "v1" (candidates get ("users" ∷ "7" ∷ []) public_routes)
versions_agree_example = versions_agree get "v1" ("users" ∷ "7" ∷ [])

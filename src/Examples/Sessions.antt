-- ===== src/Examples/Sessions.antt =====
-- A login, a renewal, a token that is used twice, and a logout.
use ch_api_authenticator.Handlers.Login.Opens.{login-opens}
use ch_api_authenticator.Examples.Scenario.{jane}
use ch_api_authenticator.Domain.User.{disabled}
use ch_api_authenticator.Handlers.Session.Create.{create_session}
use ch_api_authenticator.Services.Whitelist.{ip_allowed}
use ch_api_authenticator.Domain.User.{normalize_email}
use ch_api_authenticator.Repository.Users.{find_by_email}
use ch_api_authenticator.State.{enforce_login}
use ch_api_authenticator.Validation.{require}
use ch_api_authenticator.Validation.{check}
use ch_api_authenticator.Repository.Dates.{expiry}
use ch_api_authenticator.Repository.RefreshTokens.{find_by_hash}
use ch_api_authenticator.Repository.RefreshTokens.{revoke_family}
use ch_api_authenticator.Services.Jwt.{audiences_for}
use ch_api_authenticator.Domain.RolesFormat.{distinct_roles}
use ch_api_authenticator.Services.Jwt.{issue}
use ch_api_authenticator.Handlers.Session.Create.{create_session_in_family}
use ch_api_authenticator.Repository.Users.{find_by_id}
use ch_api_authenticator.Base.Text.{trim}
use ch_api_authenticator.Base.Text.{split_once}
use ch_api_authenticator.Handlers.Cookies.{pair_value}
use ch_api_authenticator.Base.Text.{split}
use ch_api_authenticator.Handlers.Cookies.{cookie_value}
use ch_api_authenticator.Services.RateLimit.{enforce}
use ch_api_authenticator.State.{enforce_refresh}
use ch_api_authenticator.Exec.{◌>>=◌}
use ch_api_authenticator.Repository.RefreshTokens.Rotation.{creates}
use ch_api_authenticator.Repository.RefreshTokens.Rotation.{here}
use ch_api_authenticator.Repository.RefreshTokens.Rotation.{next}
use ch_api_authenticator.Repository.RefreshTokens.Rotation.{rotation_once}
use ch_api_authenticator.Examples.Scenario.{refresh_token}
use ch_api_authenticator.Repository.RefreshTokens.Calls.{none_live}
use ch_api_authenticator.Handlers.Session.Ends.{logout-none_live, refresh-reuse}
use ch_api_authenticator.Handlers.Session.{logout}
use ch_api_authenticator.Error.{invalid_token}
use ch_api_authenticator.Exec.{err}
use ch_api_authenticator.Base.{[], false, true, ◌∷◌, ◌≢◌}
use ch_api_authenticator.State.{World}
use ch_api_authenticator.Mongo.{Store}
use ch_api_authenticator.Repository.RefreshTokens.{
  RefreshToken, consume_for_rotation, create, is_live_in_family, rotated,
}
use ch_api_authenticator.Handlers.Session.{refresh}
use ch_api_authenticator.Base.{refl, ◌≡◌}
use ch_api_authenticator.Examples.Scenario.{ambient, platform, state, world}
use ch_api_authenticator.Handlers.Session.Create.{Session, session_of}
use ch_api_authenticator.Exec.{Result, ok}
use ch_api_authenticator.Handlers.Login.{LoginRequest, login}
use ch_api_authenticator.Error.{JsonRejection}
use ch_api_authenticator.Handlers.Session.Laws.{IsRenewal, refresh-IsRenewal}
use ch_api_authenticator.Handlers.Login.Laws.{IsLogin, login-IsLogin}

abbrev session : Session
session = session_of platform state "token" "r2"

abbrev login_request : Result JsonRejection LoginRequest
login_request = ok (record { email = "jane@x"; password = "Old-password-1" })

abbrev one : RefreshToken
one = record {
  user_id = 7;
  family_id = 5;
  token_hash = "r1";
  expires_at = 60005;
  revoked = false;
  created_at = 5;
}

abbrev one_token : Store RefreshToken
one_token = record { docs = one ∷ []; seed = 1 }

login-IsLogin_example :
    (request : LoginRequest) × (login_request ≡ ok request)
    × IsLogin platform state ambient world request session
unfolding login ◌>>=◌ check require enforce_login enforce find_by_email normalize_email trim
    ip_allowed create_session create_session_in_family issue distinct_roles audiences_for create
login-IsLogin_example = login-IsLogin platform state ambient world login_request session refl

login-opens_example : (login platform state ambient login_request world).0 ≡ ok session
unfolding normalize_email trim require enforce_login enforce find_by_email ◌>>=◌ distinct_roles
    issue audiences_for create
login-opens_example =
    login-opens platform state ambient world
      (record { email = "jane@x"; password = "Old-password-1" }) jane 7 "token" refl refl refl refl
      refl refl refl refl refl

refresh-IsRenewal_example : IsRenewal platform state ambient world session
unfolding refresh ◌>>=◌ enforce_refresh enforce cookie_value split pair_value split_once trim
    consume_for_rotation find_by_id create_session_in_family issue distinct_roles audiences_for
    create
refresh-IsRenewal_example = refresh-IsRenewal platform state ambient world session refl

-- The refresh token of the scenario after it was rotated.
abbrev rotated_world : World
rotated_world = record world {
  refresh_tokens = record { docs = record refresh_token { revoked = true } ∷ []; seed = 20 };
}

refresh-reuse_example :
    ((refresh platform state ambient rotated_world).0 ≡ err invalid_token)
    × (none_live
          (is_live_in_family 5)
          (refresh platform state ambient rotated_world).1.refresh_tokens.docs
        ≡ true)
unfolding refresh enforce cookie_value split pair_value split_once trim consume_for_rotation ◌>>=◌
    revoke_family
refresh-reuse_example =
    refresh-reuse platform state ambient rotated_world "r1"
      (record refresh_token { revoked = true }) 0 refl refl refl refl

logout-none_live_example :
    none_live (is_live_in_family 5) (logout platform state ambient world).1.refresh_tokens.docs
    ≡ true
unfolding logout cookie_value split pair_value split_once trim find_by_hash revoke_family
logout-none_live_example =
    logout-none_live platform state ambient world "r1" refresh_token 1 refl refl refl

rotation_once_example :
    (consume_for_rotation platform.refresh_tokens 6 "r1"
      (consume_for_rotation platform.refresh_tokens 5 "r1" one_token).1).0
    ≢ ok (rotated refresh_token)
unfolding create ◌>>=◌ expiry consume_for_rotation
rotation_once_example =
    rotation_once platform.refresh_tokens 5 6 "r1" (record { docs = []; seed = 0 }) one_token
      (consume_for_rotation platform.refresh_tokens 5 "r1" one_token).1 one refresh_token refl
      (next here (creates 5 7 5 "r1" 60 (record { docs = []; seed = 0 }) tt)) refl here

-- The status of the account is no condition of a renewal.
abbrev disabled_world : World
disabled_world = record world {
  users = record { docs = record jane { status = disabled } ∷ []; seed = 20 };
}

disabled_refresh : (refresh platform state ambient disabled_world).0 ≡ ok session
unfolding refresh ◌>>=◌ enforce_refresh enforce cookie_value split pair_value split_once trim
    consume_for_rotation find_by_id create_session_in_family issue distinct_roles audiences_for
    create
disabled_refresh = refl

-- ===== src/Examples/Start.antt =====
-- The seed of an administrator where there is no such account yet, and the change of an email.
use ch_api_authenticator.Repository.Users.{update_email}
use ch_api_authenticator.Domain.RolesFormat.{distinct_roles}
use ch_api_authenticator.Handlers.Me.{load_user}
use ch_api_authenticator.Handlers.Me.{parse_user_id}
use ch_api_authenticator.Services.Jwt.{validate}
use ch_api_authenticator.Base.Text.{strip_prefix}
use ch_api_authenticator.Middleware.Auth.{token_from_bearer}
use ch_api_authenticator.Middleware.Auth.{extract_token}
use ch_api_authenticator.Handlers.Request.{signed_in}
use ch_api_authenticator.Handlers.Me.Laws.{update_me-ok}
use ch_api_authenticator.Examples.Instances.{unicode}
use ch_api_authenticator.Base.{true}
use ch_api_authenticator.Mongo.Docs.{modify_first}
use ch_api_authenticator.Examples.Scenario.{headers}
use ch_api_authenticator.Repository.Users.{find_by_email, has_id, insert, with_email}
use ch_api_authenticator.Middleware.Auth.{auth_user}
use ch_api_authenticator.Base.Lists.{any}
use ch_api_authenticator.Handlers.Me.{UpdateMeRequest, profile, update_me}
use ch_api_authenticator.Exec.{Result, ok}
use ch_api_authenticator.Domain.User.{ObjectId}
use ch_api_authenticator.Error.{JsonRejection}
use ch_api_authenticator.Services.Jwt.{Claims}
use ch_api_authenticator.Domain.User.{new}
use ch_api_authenticator.Startup.{create_administrator}
use ch_api_authenticator.Base.Text.{trim}
use ch_api_authenticator.Domain.User.{normalize_email}
use ch_api_authenticator.Exec.{◌>>=◌}
use ch_api_authenticator.Examples.Scenario.{ambient, jane, platform, secrets, state, world}
use ch_api_authenticator.Startup.{administrator_of, seed_admin}
use ch_api_authenticator.Base.{[], refl, some, ◌∷◌, ◌≡◌}
use ch_api_authenticator.Repository.Users.{Users, identify}
use ch_api_authenticator.State.{AppState}
use ch_api_authenticator.Repository.Users

abbrev seeding_state : AppState
seeding_state = record state {
  settings = record (state.settings) {
    secrets = record secrets {
      admin_email = some "root@x";
      admin_password = some "Root-password-1";
    };
  };
}

-- The account that is added has the role.
seeded_users :
    (seed_admin platform ambient seeding_state world).1.users.docs
    ≡ jane ∷ Users.identify 20 (administrator_of platform ambient "root@x" "Root-password-1") ∷ []
unfolding seed_admin ◌>>=◌ Users.find_by_email normalize_email trim create_administrator
    Users.insert administrator_of new
seeded_users = refl

abbrev email_request : Result JsonRejection UpdateMeRequest
email_request = ok (record { email = " jane@y " })

update_me-ok_example :
    (own : Claims) × (request : UpdateMeRequest) × (id : ObjectId) × (auth_user platform.jwt
        state.jwt "access" 1000 headers
      ≡ ok own)
    × (email_request ≡ ok request)
    × (platform.is_email request.email ≡ true)
    × (platform.parse_str own.sub ≡ some id)
    × (any (has_id id) world.users.docs ≡ true)
    × ((update_me platform state ambient email_request world).1.users.docs
        ≡ modify_first
            (has_id id)
            (with_email 1000000 (normalize_email unicode.to_lowercase request.email))
            world.users.docs)
unfolding update_me ◌>>=◌ signed_in auth_user extract_token token_from_bearer strip_prefix trim
    validate parse_user_id Users.update_email load_user Users.find_by_id normalize_email
    distinct_roles
update_me-ok_example =
    update_me-ok platform state ambient email_request world
      (profile platform (with_email 1000000 "jane@y" jane)) refl

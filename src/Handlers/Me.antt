-- ===== src/Handlers/Me.antt =====
-- handlers/me.rs: an account's own profile.
pub mod Laws
pub mod Steps
use ch_api_authenticator.Repository.Users.{find_by_id}
use ch_api_authenticator.Services.Jwt.{written}
use ch_api_authenticator.Repository.Users.{update_email}
use ch_api_authenticator.Handlers.Request.{email_written, signed_in}
use ch_api_authenticator.Base.{Bool, List, Option, String, none, some}
use ch_api_authenticator.Error.{AppError, JsonRejection, from_rejection, invalid_token, validation}
use ch_api_authenticator.State.{Ambient, AppState, Handler, Platform, in_users, or_internal}
use ch_api_authenticator.Domain.User.{AccountStatus, ObjectId, User, normalize_email}
use ch_api_authenticator.Exec.{Result, ok_or, lift, lift_err, pure, attempt, guard, ◌>>=◌, ◌>>◌}

pub record MeResponse : Type 0 where
  pub user_id : String
  pub name : String
  pub email : String
  pub roles : List String
  pub status : AccountStatus
  pub whitelist_only : Bool
  pub allowed_ips : List String
  pub created_at : String

pub record UpdateMeRequest : Type 0 where
  pub email : String

module _ (x : Platform) where
  abbrev pub hex_or_empty : Option ObjectId → String
  hex_or_empty none = ""
  hex_or_empty (some id) = x.to_hex id

  unfoldable pub profile : User → MeResponse
  profile user = record {
    user_id = hex_or_empty user.id;
    name = user.name;
    email = user.email;
    roles = user.roles;
    status = user.status;
    whitelist_only = user.whitelist_only;
    allowed_ips = user.allowed_ips;
    created_at = x.rfc3339 user.created_at;
  }

  unfoldable pub parse_user_id : String → Result AppError ObjectId
  parse_user_id sub = ok_or (x.parse_str sub) invalid_token

  unfoldable pub load_user : String → Handler User
  load_user sub = do
    id ← lift (parse_user_id sub)
    found ← or_internal (in_users (find_by_id x.users id))
    lift (ok_or found invalid_token)

module _ (x : Platform) (state : AppState) (ambient : Ambient) where
  unfoldable pub get_me : Handler MeResponse
  get_me = do
    claims ← signed_in x state ambient
    user ← load_user x claims.sub
    pure (profile x user)

  abbrev pub invalid_email : AppError
  invalid_email = validation "format d'email invalide"

  unfoldable pub update_me : Result JsonRejection UpdateMeRequest → Handler MeResponse
  update_me payload = do
    claims ← signed_in x state ambient
    request ← lift_err from_rejection payload
    lift (guard (x.is_email request.email) invalid_email)
    id ← lift (parse_user_id x claims.sub)
    written ← attempt (
        in_users (
          update_email x.users (ambient.clock 1) id
            (normalize_email x.unicode.to_lowercase request.email)))
    lift (email_written invalid_token written)
    user ← load_user x claims.sub
    pure (profile x user)

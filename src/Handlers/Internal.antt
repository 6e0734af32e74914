-- ===== src/Handlers/Internal.antt =====
-- handlers/internal.rs: other services turn ids into names, with a shared secret.
-- A body that is no list of ids is refused by axum before the handler runs.
pub mod Laws
pub mod Steps
use ch_api_authenticator.Exec.{◌>>=◌, ◌>>◌}
use ch_api_authenticator.Base.Lists.{take}
use ch_api_authenticator.Base.Text.{is_empty}
use ch_api_authenticator.Handlers.Me.{hex_or_empty}
use ch_api_authenticator.Exec.{guard, lift, pure}
use ch_api_authenticator.Error.{forbidden}
use ch_api_authenticator.Repository.Users.{find_by_id}
use ch_api_authenticator.Domain.User.{ObjectId, User}
use ch_api_authenticator.Base.{
  Bool, List, Option, String, [], false, if◌then◌else◌, none, some, ℕ, ◌==◌, ◌∷◌,
}
use ch_api_authenticator.State.{Ambient, AppState, Handler, Platform, in_users, or_internal}

pub record ResolvedUser : Type 0 where
  pub user_id : String
  pub name : String
  pub email : String

abbrev pub internal_secret_header : String
internal_secret_header = "x-internal-secret"

-- Texts are compared in constant time, with the answer of `==`.
unfoldable pub is_authorized : String → String → Bool
is_authorized provided expected = if is_empty provided then false else provided == expected

abbrev pub max_resolved : ℕ
max_resolved = 1000

abbrev provided_secret : Option String → String
provided_secret none = ""
provided_secret (some value) = value

module _ (x : Platform) where
  abbrev pub resolved_user : User → ResolvedUser
  resolved_user user = record {
    user_id = hex_or_empty x user.id;
    name = user.name;
    email = user.email;
  }

  abbrev pub push_found : Option User → List ResolvedUser → List ResolvedUser
  push_found none rest = rest
  push_found (some user) rest = resolved_user user ∷ rest

  abbrev lookup : Option ObjectId → Handler (Option User)
  lookup none = pure none
  lookup (some oid) = or_internal (in_users (find_by_id x.users oid))

  -- The loop; what it pushes stands in front of what its rest pushes.
  unfoldable pub resolve_all : List String → Handler (List ResolvedUser)
  resolve_all [] = pure []
  resolve_all (id ∷ ids) = do
    found ← lookup (x.parse_str id)
    rest ← resolve_all ids
    pure (push_found found rest)

  unfoldable pub resolve_users : AppState → Ambient → List String → Handler (List ResolvedUser)
  resolve_users state ambient ids = do
    lift (
        guard
          (is_authorized (provided_secret (ambient.headers internal_secret_header))
            state.settings.secrets.internal_api_secret)
          (forbidden "accès interne refusé"))
    resolve_all (take max_resolved ids)

-- ===== src/Startup.antt =====
-- main.rs: the administrator's account that the service makes sure of when it starts.
pub mod Laws
pub mod Launch
pub mod Keeps
use ch_api_authenticator.Base.{List, ◌++◌, ◌+◌}
use mathlib.Core.List
use ch_api_authenticator.Exec.{◌>>=◌, ◌>>◌}
use ch_api_authenticator.Base.Lists.{contains}
use ch_api_authenticator.Middleware.Auth.{admin_role}
use ch_api_authenticator.Repository.Users.{
  RepositoryError, database, duplicate_email, find_by_email, insert, update_roles,
}
use ch_api_authenticator.Base.{Option, String, [], if◌then◌else◌, none, some, ◌∷◌}
use ch_api_authenticator.Domain.User.{ObjectId, User, new}
use ch_api_authenticator.Mongo.{MongoError}
use ch_api_authenticator.Exec.{Exec, Result, attempt, err, lift, map_err, ok, ok_or, pure}
use ch_api_authenticator.State.{Ambient, AppState, Platform, World, in_users}

pub data SeedError : Type 0 where
  read_failed update_failed : MongoError → SeedError
  insert_failed : RepositoryError → SeedError
  hash_failed no_id : SeedError

-- `match state.users.insert(&user).await`
abbrev pub seeded : Result RepositoryError ObjectId → Result SeedError (Unit {0})
seeded (ok id) = ok tt
seeded (err duplicate_email) = ok tt
seeded (err (database e)) = err (insert_failed (database e))

module _ (x : Platform) (ambient : Ambient) where
  abbrev pub grant : User → Exec World SeedError (Unit {0})
  grant existing = do
    id ← lift (ok_or existing.id no_id)
    map_err update_failed (
        in_users
          (update_roles x.users (ambient.clock 0) id (List.◌++◌ existing.roles (admin_role ∷ []))))
    pure tt

  -- An existing account is given the administrator's role if it has it not.
  unfoldable pub promote : User → Exec World SeedError (Unit {0})
  promote existing = if contains admin_role existing.roles then pure tt else grant existing

  unfoldable pub administrator_of : String → String → User
  administrator_of email password_hash =
      record (new x.unicode.to_lowercase (ambient.clock 0) email password_hash (admin_role ∷ [])) {
        name = "Administrateur";
      }

  unfoldable pub create_administrator : String → String → Exec World SeedError (Unit {0})
  create_administrator email password = do
    password_hash ← lift (ok_or (x.crypto.hash_password ambient.salt password) hash_failed)
    inserted ← attempt (in_users (insert x.users (administrator_of email password_hash)))
    lift (seeded inserted)

  seed_found : String → String → Option User → Exec World SeedError (Unit {0})
  seed_found email password (some existing) = promote existing
  seed_found email password none = create_administrator email password

  seed_with : Option String → Option String → Exec World SeedError (Unit {0})
  unfolding seed_found
  seed_with (some email) (some password) = do
    found ← map_err read_failed (in_users (find_by_email x.users x.unicode.to_lowercase email))
    seed_found email password found
  seed_with _ _ = pure tt

  unfoldable pub seed_admin : AppState → Exec World SeedError (Unit {0})
  unfolding seed_with
  seed_admin state =
      seed_with state.settings.secrets.admin_email state.settings.secrets.admin_password

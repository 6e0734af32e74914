-- ===== src/Repository/Roles.antt =====
-- repository/roles.rs: the catalogue of roles, with a unique index on the name.
pub mod Calls
use ch_api_authenticator.Base.{
  String, ◌==◌, Bool, true, false, ◌||◌, not, Option, none, some, List, [], ◌∷◌, map, eqb,
  if◌then◌else◌,
}
use ch_api_authenticator.Base.Lists.{contains}
use ch_api_authenticator.Base.Text.{trim}
use ch_api_authenticator.Exec.{Result, ok, err, Exec, pure, raise, attempt, ◌>>=◌, ◌>>◌}
use ch_api_authenticator.Domain.User.{ObjectId, DateTime}
use ch_api_authenticator.Domain.Role.{Role, Portal, all_portals, role_name, portal_role}
use ch_api_authenticator.Mongo.{Driver, Store, MongoError, is_duplicate_key}

pub data RoleError : Type 0 where
  duplicate : RoleError
  database : MongoError → RoleError

abbrev pub identify : ObjectId → Role → Role
identify id role = record role { id = some id }

abbrev pub has_id : ObjectId → Role → Bool
has_id id role = elim role.id [ none ↦ false | some own ↦ eqb own id ]

abbrev same_id : Option ObjectId → Option ObjectId → Bool
same_id (some a) (some b) = eqb a b
same_id _ _ = false

abbrev pub same_role : Role → Role → Bool
same_role a b = a.name == b.name || same_id a.id b.id

abbrev pub Roles : Type 0
Roles = Driver Role identify same_role

abbrev pub has_name : String → Role → Bool
has_name name role = role.name == name

abbrev pub any_role : Role → Bool
any_role role = true

-- doc! { "portal": { "$nin": known_portals } }; the stored name of a portal is its role's name.
abbrev pub has_unknown_portal : Role → Bool
has_unknown_portal role = not (contains (role_name role.portal) (map role_name all_portals))

-- `Err(e) if is_duplicate_key(&e) => Duplicate`, `Err(e) => Database(e)`
abbrev role_error : Result MongoError ObjectId → Result RoleError ObjectId
role_error (ok id) = ok id
role_error (err e) = if is_duplicate_key e then err duplicate else err (database e)

-- .sort(doc! { "name": 1 }): by the order of texts, which the server's collation gives.
module _ (collection : Roles) (text_before : String → String → Bool) where
  open collection use {find_sorted}

  unfoldable pub list : Exec (Store Role) MongoError (List Role)
  list = find_sorted any_role (λ a b. text_before a.name b.name) 0 0

module _ (collection : Roles) where
  open collection use {find_one, insert_one, delete_one, delete_many}

  unfoldable pub find_by_id : ObjectId → Exec (Store Role) MongoError (Option Role)
  find_by_id id = find_one (has_id id)

  unfoldable pub insert : Role → Exec (Store Role) RoleError ObjectId
  insert role s = (role_error (insert_one role s).0, (insert_one role s).1)

  unfoldable pub delete : ObjectId → Exec (Store Role) MongoError Bool
  delete id = do deleted ← delete_one (has_id id); pure (eqb deleted 1)

  unfoldable pub exists : String → Exec (Store Role) MongoError Bool
  exists name = do
    found ← find_one (has_name (trim name))
    pure (elim found [ none ↦ false | some role ↦ true ])

  -- `Ok(_) | Err(RoleError::Duplicate) => {}`, `Err(RoleError::Database(e)) => return Err(e)`
  seeded : Result RoleError ObjectId → Exec (Store Role) MongoError (Unit {0})
  seeded (ok id) = pure tt
  seeded (err duplicate) = pure tt
  seeded (err (database e)) = raise e

  seed_portals : DateTime → List Portal → Exec (Store Role) MongoError (Unit {0})
  unfolding insert seeded
  seed_portals now [] = pure tt
  seed_portals now (portal ∷ portals) = do
    inserted ← attempt (insert (portal_role now portal))
    seeded inserted
    seed_portals now portals

  unfoldable pub ensure_portal_roles : DateTime → Exec (Store Role) MongoError (Unit {0})
  unfolding seed_portals
  ensure_portal_roles now = do delete_many has_unknown_portal; seed_portals now all_portals

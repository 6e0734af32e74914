-- ===== src/Repository/Users.antt =====
-- repository/users.rs: the accounts, with a unique index on the email. Each update writes
-- `updated_at` too, and answers whether there was an account to update.
pub mod Calls
pub mod Unique
use ch_api_authenticator.Exec.{◌>>◌}
use ch_api_authenticator.Base.Lists.{any}
use ch_api_authenticator.Repository.Indexes.{IndexModel, user_indexes}
use mathlib.Core.Option
use ch_api_authenticator.Base.{
  ℕ, String, ◌==◌, Bool, true, false, ◌&&◌, ◌||◌, Option, none, some, List, [], ◌∷◌, map, ltb, leb,
  eqb, if◌then◌else◌,
}
use mathlib.Core.List.{◌++◌}
use ch_api_authenticator.Base.Lists.{contains}
use ch_api_authenticator.Exec.{Result, ok, err, Exec, pure, ◌>>=◌}
use ch_api_authenticator.Domain.User.{
  ObjectId, DateTime, AccountStatus, pending_validation, active, disabled, User, normalize_email,
}
use ch_api_authenticator.Domain.RolesFormat.{distinct_roles}
use ch_api_authenticator.Mongo.{Driver, Store, MongoError, is_duplicate_key}

pub data RepositoryError : Type 0 where
  duplicate_email : RepositoryError
  database : MongoError → RepositoryError

abbrev pub identify : ObjectId → User → User
identify id user = record user { id = some id }

abbrev pub has_id : ObjectId → User → Bool
has_id id user = elim user.id [ none ↦ false | some own ↦ eqb own id ]

abbrev same_id : Option ObjectId → Option ObjectId → Bool
same_id (some a) (some b) = eqb a b
same_id _ _ = false

-- The server's test of one index: of those that this repository asks for, on the email.
abbrev pub breaks : User → User → IndexModel → Bool
breaks a b index = index.unique && index.key == "email" && a.email == b.email

-- Two accounts conflict by a unique index that `ensure_indexes` asks for, or by their ids.
abbrev pub same_account : User → User → Bool
same_account a b = any (breaks a b) user_indexes || same_id a.id b.id

abbrev pub Users : Type 0
Users = Driver User identify same_account

-- A document as serde reads it: the roles go through `deserialize_roles`. The service writes them as
-- a flat list.
abbrev pub loaded : User → User
loaded user = record user { roles = distinct_roles user.roles }

abbrev pub has_email : String → User → Bool
has_email email user = user.email == email

abbrev pub is_status : AccountStatus → AccountStatus → Bool
is_status pending_validation pending_validation = true
is_status active active = true
is_status disabled disabled = true
is_status _ _ = false

abbrev pub matches_email : (String → String) → Option String → User → Bool
matches_email to_lowercase none user = true
matches_email to_lowercase (some email) user = user.email == normalize_email to_lowercase email

abbrev pub matches_status : Option AccountStatus → User → Bool
matches_status none user = true
matches_status (some status) user = is_status user.status status

abbrev id_of : User → ObjectId
id_of user = elim user.id [ none ↦ 0 | some id ↦ id ]

-- .sort(doc! { "created_at": 1, "_id": 1 })
abbrev created_before : User → User → Bool
created_before a b =
    ltb a.created_at b.created_at || (eqb a.created_at b.created_at && leb (id_of a) (id_of b))

abbrev pub with_roles : DateTime → List String → User → User
with_roles now roles user = record user { roles = roles; updated_at = now }

abbrev pub with_whitelist : DateTime → Bool → List String → User → User
with_whitelist now whitelist_only allowed_ips user = record user {
  whitelist_only = whitelist_only;
  allowed_ips = allowed_ips;
  updated_at = now;
}

-- "$addToSet": nothing is added that is there.
abbrev add_to_set : String → List String → List String
add_to_set ip ips = if contains ip ips then ips else ips ++ ip ∷ []

abbrev pub with_allowed_ip : DateTime → String → User → User
with_allowed_ip now ip user = record user {
  allowed_ips = add_to_set ip user.allowed_ips;
  updated_at = now;
}

abbrev pub with_password : DateTime → String → User → User
with_password now password_hash user = record user {
  password_hash = password_hash;
  updated_at = now;
}

abbrev pub with_email : DateTime → String → User → User
with_email now email user = record user { email = email; updated_at = now }

abbrev pub with_name : DateTime → String → User → User
with_name now name user = record user { name = name; updated_at = now }

abbrev pub with_status : DateTime → AccountStatus → User → User
with_status now status user = record user { status = status; updated_at = now }

-- `Err(e) if is_duplicate_key(&e) => DuplicateEmail`, `Err(e) => Database(e)`
abbrev pub repository_error : {A : Type 0} → Result MongoError A → Result RepositoryError A
repository_error (ok a) = ok a
repository_error (err e) = if is_duplicate_key e then err duplicate_email else err (database e)

module _ (collection : Users) where
  open collection use {find_one, find_sorted, count_documents, insert_one, update_one, delete_one}

  unfoldable pub insert : User → Exec (Store User) RepositoryError ObjectId
  insert user s = (repository_error (insert_one user s).0, (insert_one user s).1)

  unfoldable pub find_by_email :
      (String → String) → String → Exec (Store User) MongoError (Option User)
  find_by_email to_lowercase email = do
    found ← find_one (has_email (normalize_email to_lowercase email))
    pure (Option.map loaded found)

  unfoldable pub find_by_id : ObjectId → Exec (Store User) MongoError (Option User)
  find_by_id id = do found ← find_one (has_id id); pure (Option.map loaded found)

  -- The page of users, and the number of all that match.
  unfoldable pub list :
      (String → String)
      → ℕ
      → ℕ
      → Option String
      → Option AccountStatus
      → Exec (Store User) MongoError (List User × ℕ)
  list to_lowercase skip limit email status = do
    let matches =
        λ (user : User). matches_email to_lowercase email user && matches_status status user
    total ← count_documents matches
    users ← find_sorted matches created_before skip limit
    pure (map loaded users, total)

  -- `matched_count == 1` of an update by id.
  unfoldable pub update : ObjectId → (User → User) → Exec (Store User) MongoError Bool
  update id change = do matched ← update_one (has_id id) change; pure (eqb matched 1)

  unfoldable pub update_roles :
      DateTime → ObjectId → List String → Exec (Store User) MongoError Bool
  unfolding update
  update_roles now id roles = update id (with_roles now roles)

  unfoldable pub update_whitelist :
      DateTime → ObjectId → Bool → List String → Exec (Store User) MongoError Bool
  unfolding update
  update_whitelist now id whitelist_only allowed_ips =
      update id (with_whitelist now whitelist_only allowed_ips)

  unfoldable pub add_allowed_ip : DateTime → ObjectId → String → Exec (Store User) MongoError Bool
  unfolding update
  add_allowed_ip now id ip = update id (with_allowed_ip now ip)

  unfoldable pub count_created_since : DateTime → Exec (Store User) MongoError ℕ
  count_created_since since = count_documents (λ user. leb since user.created_at)

  unfoldable pub update_password : DateTime → ObjectId → String → Exec (Store User) MongoError Bool
  unfolding update
  update_password now id password_hash = update id (with_password now password_hash)

  unfoldable pub update_email :
      DateTime → ObjectId → String → Exec (Store User) RepositoryError Bool
  unfolding update
  update_email now id email s =
      let m = update id (with_email now email) s in (repository_error m.0, m.1)

  unfoldable pub update_name : DateTime → ObjectId → String → Exec (Store User) MongoError Bool
  unfolding update
  update_name now id name = update id (with_name now name)

  unfoldable pub update_status :
      DateTime → ObjectId → AccountStatus → Exec (Store User) MongoError Bool
  unfolding update
  update_status now id status = update id (with_status now status)

  unfoldable pub delete : ObjectId → Exec (Store User) MongoError Bool
  delete id = do deleted ← delete_one (has_id id); pure (eqb deleted 1)

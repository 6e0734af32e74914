-- ===== src/Service/Calls.antt =====
-- Each call of a repository as a write that the policy allows.
pub mod Stores
use ch_api_authenticator.Repository.Users.{delete, find_by_id, has_id, insert, list}
use ch_api_authenticator.Repository.Indexes.{users}
use ch_api_authenticator.Repository.Users.{update}
use ch_api_authenticator.Services.Crypto.Crates.{hash}
use ch_api_authenticator.Service.Policy.{Given}
use ch_api_authenticator.Repository.Users.{update_email, with_email}
use ch_api_authenticator.Repository.Users.Calls.{update-conflict_free, update-docs}
use ch_api_authenticator.Repository.Users.Calls.{list-docs}
use ch_api_authenticator.Service.Policy.{edits}
use ch_api_authenticator.Service.Runs.{Runs-accounts}
use ch_api_authenticator.Service.Policy.{registers}
use ch_api_authenticator.Service.Policy.{keeps}
use ch_api_authenticator.Service.Policy.{deletes}
use ch_api_authenticator.Exec.{◌>>=◌}
use ch_api_authenticator.Mongo.Docs.{modify_first}
use ch_api_authenticator.Repository.Users.Calls.{find_by_email-docs, find_by_id-docs}
use ch_api_authenticator.Repository.Users.{count_created_since, find_by_email, same_account}
use ch_api_authenticator.Mongo.Unique.{conflict_free}
use ch_api_authenticator.Mongo.{Store}
use ch_api_authenticator.Service.Runs.{Runs}
use ch_api_authenticator.Handlers.Register.{RegisterRequest, register_errors, registered}
use ch_api_authenticator.Handlers.Admin.Laws.{IsAdministrator}
use ch_api_authenticator.Base.{Option, String, [], arith, inl, inr, some, true, ℕ, ◌≡◌, ◌⊎◌}
use ch_api_authenticator.State.{Ambient, AppState, Platform, in_users}
use ch_api_authenticator.Service.Policy.{AccountsWrite, Edit}
use ch_api_authenticator.Domain.User.{AccountStatus, DateTime, ObjectId, User}
use ch_api_authenticator.Repository.Users

module _ {x : Platform} {state : AppState} {ambient : Ambient} {given : Given} where
  -- The accounts.
  pub find_by_id-Runs :
      (id : ObjectId) → Runs x state ambient given (in_users (Users.find_by_id x.users id))
  find_by_id-Runs id = Runs-accounts _ λ s. keeps (find_by_id-docs x.users id s)

  pub find_by_email-Runs :
      (lower : String → String) (email : String)
      → Runs x state ambient given (in_users (Users.find_by_email x.users lower email))
  find_by_email-Runs lower email =
      Runs-accounts _ λ s. keeps (find_by_email-docs x.users lower email s)

  pub list-Runs :
      (lower : String → String) (skip limit : ℕ) (email : Option String)
      (status : Option AccountStatus)
      → Runs x state ambient given (in_users (Users.list x.users lower skip limit email status))
  list-Runs lower skip limit email status =
      Runs-accounts _ λ s. keeps (list-docs x.users lower skip limit email status s)

  pub count_created_since-Runs :
      (since : DateTime)
      → Runs x state ambient given (in_users (Users.count_created_since x.users since))
  unfolding Users.count_created_since
  count_created_since-Runs since = Runs-accounts _ λ s. keeps (x.users.count_documents_law _ s).0

  insert-Write :
      (request : RegisterRequest) (hash : String)
      → register_errors x state ambient request ≡ []
      → x.crypto.hash_password ambient.salt request.password ≡ some hash
      → (s : Store User)
      → AccountsWrite x state ambient given s.docs
          (Users.insert x.users (registered x state ambient request hash) s).1.docs
  unfolding Users.insert
  insert-Write request hash checks hashed s =
      elim (x.users.insert_one_law (registered x state ambient request hash) s) [
        | inl (id, _, wrote, free) ↦ registers request hash id checks hashed free wrote
        | inr (_, _, inl same) ↦ keeps same
        | inr (_, _, inr (id, wrote, free)) ↦ registers request hash id checks hashed free wrote
      ]

  pub insert-Runs :
      (request : RegisterRequest) (hash : String)
      → register_errors x state ambient request ≡ []
      → x.crypto.hash_password ambient.salt request.password ≡ some hash
      → Runs x state ambient given
          (in_users (Users.insert x.users (registered x state ambient request hash)))
  insert-Runs request hash checks hashed = Runs-accounts _ (insert-Write request hash checks hashed)

  pub update-Write :
      (id : ObjectId) (change : User → User)
      → Edit x state ambient given id change
      → (s : Store User)
      → AccountsWrite x state ambient given s.docs (Users.update x.users id change s).1.docs
  update-Write id change edit s = elim (update-docs x.users id change s) [
    | inl same ↦ keeps same
    | inr wrote ↦ edits id change edit (update-conflict_free x.users id change s) wrote
  ]

  pub update-Runs :
      (id : ObjectId) (change : User → User)
      → Edit x state ambient given id change
      → Runs x state ambient given (in_users (Users.update x.users id change))
  update-Runs id change edit = Runs-accounts _ (update-Write id change edit)

  delete-Write :
      (id : ObjectId)
      → IsAdministrator x state ambient
      → (s : Store User)
      → AccountsWrite x state ambient given s.docs (Users.delete x.users id s).1.docs
  unfolding Users.delete ◌>>=◌
  delete-Write id right s = elim (x.users.delete_one_law (Users.has_id id) s) [
    | inl (_, wrote) ↦ deletes id right (ground arith)
    | inr (_, _, inl same) ↦ keeps (ground arith)
    | inr (_, _, inr wrote) ↦ deletes id right (ground arith)
  ]

  pub delete-Runs :
      (id : ObjectId)
      → IsAdministrator x state ambient
      → Runs x state ambient given (in_users (Users.delete x.users id))
  delete-Runs id right = Runs-accounts _ (delete-Write id right)

  pub update_email-Runs :
      (now : DateTime) (id : ObjectId) (email : String)
      → Edit x state ambient given id (with_email now email)
      → Runs x state ambient given (in_users (Users.update_email x.users now id email))
  unfolding Users.update_email
  update_email-Runs now id email edit =
      Runs-accounts _ (update-Write id (with_email now email) edit)

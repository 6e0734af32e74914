-- ===== src/Repository/Users/Calls.antt =====
-- What a call of repository/users.rs that succeeds found and wrote.
use ch_api_authenticator.Base.{List}
use ch_api_authenticator.Exec.Laws.{invert_run, ok_injective}
use ch_api_authenticator.Base.{ap, map, refl, sym, ◌≤◌}
use ch_api_authenticator.Base.Lists.{All, length}
use ch_api_authenticator.Base.{inl, inr, true, ◌⊎◌}
use ch_api_authenticator.Mongo.Unique.{conflict_free}
use ch_api_authenticator.Repository.Users.{created_before}
use ch_api_authenticator.Repository.Users.{matches_status}
use ch_api_authenticator.Repository.Users.{matches_email}
use ch_api_authenticator.Repository.Users.{list}
use ch_api_authenticator.Base.{ℕ, ◌&&◌}
use ch_api_authenticator.Domain.User.{AccountStatus}
use ch_api_authenticator.Repository.Users.{repository_error}
use ch_api_authenticator.Exec.{Result, err}
use ch_api_authenticator.Mongo.{MongoError}
use ch_api_authenticator.Mongo.Docs.{remove_first}
use ch_api_authenticator.Repository.Users.{delete, identify, insert, same_account}
use ch_api_authenticator.Base.{[], false, ◌∷◌}
use mathlib.Core.List
use ch_api_authenticator.Exec.{◌>>=◌}
use mathlib.Core.Option
use ch_api_authenticator.Base.{String, ◌≡◌, Bool, Option, arith}
use ch_api_authenticator.Base.Lists.{any, find}
use ch_api_authenticator.Exec.{ok}
use ch_api_authenticator.Domain.User.{ObjectId, User, normalize_email}
use ch_api_authenticator.Mongo.{Store}
use ch_api_authenticator.Mongo.Docs.{modify_first}
use ch_api_authenticator.Repository.Users.{
  Users, has_id, has_email, loaded, find_by_email, find_by_id, update,
}

pub repository_error-eq-ok :
    {A : Type 0} (r : Result MongoError A) (a : A) → repository_error r ≡ ok a → r ≡ ok a
repository_error-eq-ok (ok own) a e = ground arith
repository_error-eq-ok (err error) a e = ground arith

module _ (collection : Users) where
  open collection use {find_one_law, update_one_law}

  pub find_by_id-ok :
      (id : ObjectId) (s : Store User) (found : Option User)
      → (find_by_id collection id s).0 ≡ ok found
      → found ≡ Option.map loaded (find (has_id id) s.docs)
  unfolding find_by_id ◌>>=◌
  find_by_id-ok id s found e = ground (arith, find_one_law (has_id id) s)

  pub find_by_id-docs :
      (id : ObjectId) (s : Store User) → (find_by_id collection id s).1.docs ≡ s.docs
  unfolding find_by_id ◌>>=◌
  find_by_id-docs id s = ground (arith, find_one_law (has_id id) s)

  pub find_by_email-ok :
      (lower : String → String) (email : String) (s : Store User) (found : Option User)
      → (find_by_email collection lower email s).0 ≡ ok found
      → found ≡ Option.map loaded (find (has_email (normalize_email lower email)) s.docs)
  unfolding find_by_email ◌>>=◌
  find_by_email-ok lower email s found e =
      ground (arith, find_one_law (has_email (normalize_email lower email)) s)

  pub find_by_email-docs :
      (lower : String → String) (email : String) (s : Store User)
      → (find_by_email collection lower email s).1.docs ≡ s.docs
  unfolding find_by_email ◌>>=◌
  find_by_email-docs lower email s =
      ground (arith, find_one_law (has_email (normalize_email lower email)) s)

  -- An update answers true exactly if there is an account of that id, and it changes that one.
  pub update-ok :
      (id : ObjectId) (change : User → User) (s : Store User) (found : Bool)
      → (update collection id change s).0 ≡ ok found
      → (found ≡ any (has_id id) s.docs)
        × ((update collection id change s).1.docs ≡ modify_first (has_id id) change s.docs)
  unfolding update ◌>>=◌
  update-ok id change s found e = ground (arith, update_one_law (has_id id) change s)

  -- An insertion that succeeds adds one account, of an email and an id that no account had.
  pub insert-ok :
      (user : User) (s : Store User) (id : ObjectId)
      → (insert collection user s).0 ≡ ok id
      → ((insert collection user s).1.docs ≡ List.◌++◌ s.docs (identify id user ∷ []))
        × (any (same_account (identify id user)) s.docs ≡ false)
  unfolding insert
  insert-ok user s id e = ground (arith, collection.insert_one_law user s)

  pub delete-ok :
      (id : ObjectId) (s : Store User) (deleted : Bool)
      → (delete collection id s).0 ≡ ok deleted
      → (deleted ≡ any (has_id id) s.docs)
        × ((delete collection id s).1.docs ≡ remove_first (has_id id) s.docs)
  unfolding delete ◌>>=◌
  delete-ok id s deleted e = ground (arith, collection.delete_one_law (has_id id) s)

  pub list-docs :
      (lower : String → String) (skip limit : ℕ) (email : Option String)
      (status : Option AccountStatus) (s : Store User)
      → (list collection lower skip limit email status s).1.docs ≡ s.docs
  unfolding list ◌>>=◌
  list-docs lower skip limit email status s = ground (
    arith,
    collection.count_documents_law (matching lower email status) s,
    collection.find_sorted_law (matching lower email status) created_before skip limit
        (collection.count_documents (matching lower email status) s).1,
  )
    where
      matching : (String → String) → Option String → Option AccountStatus → User → Bool
      matching to_lowercase wanted state user =
          matches_email to_lowercase wanted user && matches_status state user

  pub update-docs :
      (id : ObjectId) (change : User → User) (s : Store User)
      → ((update collection id change s).1.docs ≡ s.docs)
        ⊎ ((update collection id change s).1.docs ≡ modify_first (has_id id) change s.docs)
  unfolding update ◌>>=◌
  update-docs id change s = elim (update_one_law (has_id id) change s) [
    | inl (_, wrote) ↦ inr (ground arith)
    | inr (_, _, inl same) ↦ inl (ground arith)
    | inr (_, _, inr wrote) ↦ inr (ground arith)
  ]

  pub update-conflict_free :
      (id : ObjectId) (change : User → User) (s : Store User)
      → conflict_free same_account s.docs ≡ true
      → conflict_free same_account (update collection id change s).1.docs ≡ true
  unfolding update ◌>>=◌
  update-conflict_free id change s free =
      ground (arith, collection.update_one-conflict_free (has_id id) change s free)

  -- What is listed are accounts as serde reads them, which match, and no more than the limit.
  pub list-ok :
      (lower : String → String) (skip limit : ℕ) (email : Option String)
      (status : Option AccountStatus) (s : Store User) (found : List User × ℕ)
      → (list collection lower skip limit email status s).0 ≡ ok found
      → (stored : List User) × (found.0 ≡ map loaded stored)
        × All (λ u. matches_email lower email u && matches_status status u ≡ true) stored
        × ((limit ≡ 0) ⊎ (length stored ≤ limit))
  unfolding list
  list-ok lower skip limit email status s found e = invert_run _ _ _ e λ total counted r₁ e₁.
      invert_run _ _ _ e₁ λ stored read r₂ e₂.
        let (all_match, bound) =
          collection.find_sorted_answer _ created_before skip limit _ stored read in
        (stored, sym (ap (λ f. f.0) (ok_injective _ _ _ refl e₂)), all_match, bound)

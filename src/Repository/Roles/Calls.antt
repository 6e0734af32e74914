-- ===== src/Repository/Roles/Calls.antt =====
-- What a call of repository/roles.rs that succeeds found and wrote.
use ch_api_authenticator.Mongo.Docs.{any-find, any-find-none}
use ch_api_authenticator.Base.{Option-cases, inl, inr}
use ch_api_authenticator.Base.Text.{trim}
use ch_api_authenticator.Mongo.Docs.{remove_first}
use ch_api_authenticator.Exec.{ok}
use ch_api_authenticator.Base.Lists.{any, find}
use ch_api_authenticator.Mongo.{Store}
use ch_api_authenticator.Repository.Roles.{
  Roles, delete, exists, find_by_id, has_id, has_name, identify, insert, same_role,
}
use ch_api_authenticator.Domain.Role.{Role}
use ch_api_authenticator.Domain.User.{ObjectId}
use ch_api_authenticator.Base.{Bool, Option, String, [], arith, false, ◌∷◌, ◌≡◌}
use mathlib.Core.List.{◌++◌}
use ch_api_authenticator.Exec.{◌>>=◌}

module _ (collection : Roles) where
  pub find_by_id-ok :
      (id : ObjectId) (s : Store Role) (found : Option Role)
      → (find_by_id collection id s).0 ≡ ok found
      → (found ≡ find (has_id id) s.docs) × ((find_by_id collection id s).1.docs ≡ s.docs)
  unfolding find_by_id
  find_by_id-ok id s found e = ground (arith, collection.find_one_law (has_id id) s)

  pub exists-ok :
      (name : String) (s : Store Role) (found : Bool)
      → (exists collection name s).0 ≡ ok found
      → (found ≡ any (has_name (trim name)) s.docs) × ((exists collection name s).1.docs ≡ s.docs)
  unfolding exists ◌>>=◌
  exists-ok name s found e = elim (Option-cases (find (has_name (trim name)) s.docs)) [
    | inl absent ↦
        ground
          (arith, collection.find_one_law (has_name (trim name)) s, any-find-none _ s.docs absent)
    | inr (role, present) ↦
        ground
          (arith, collection.find_one_law (has_name (trim name)) s, any-find _ s.docs role present)
  ]

  pub delete-ok :
      (id : ObjectId) (s : Store Role) (deleted : Bool)
      → (delete collection id s).0 ≡ ok deleted
      → (deleted ≡ any (has_id id) s.docs)
        × ((delete collection id s).1.docs ≡ remove_first (has_id id) s.docs)
  unfolding delete ◌>>=◌
  delete-ok id s deleted e = ground (arith, collection.delete_one_law (has_id id) s)

  pub insert-ok :
      (role : Role) (s : Store Role) (id : ObjectId)
      → (insert collection role s).0 ≡ ok id
      → ((insert collection role s).1.docs ≡ s.docs ++ identify id role ∷ [])
        × (any (same_role (identify id role)) s.docs ≡ false)
  unfolding insert
  insert-ok role s id e = ground (arith, collection.insert_one_law role s)

  pub exists-docs : (name : String) (s : Store Role) → (exists collection name s).1.docs ≡ s.docs
  unfolding exists ◌>>=◌
  exists-docs name s = ground (arith, collection.find_one_law (has_name (trim name)) s)

  pub find_by_id-docs :
      (id : ObjectId) (s : Store Role) → (find_by_id collection id s).1.docs ≡ s.docs
  unfolding find_by_id
  find_by_id-docs id s = (collection.find_one_law (has_id id) s).0

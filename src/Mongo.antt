-- ===== src/Mongo.antt =====
-- The MongoDB driver as the repositories use it: a parameter of the model. The server's state is the
-- documents of one collection, and a seed for all else that its answers depend on (its faults, the
-- ids that it chooses). The laws are the documented behaviour of each call: the answer of a call
-- that succeeds, and what a call that fails may have done.
pub mod Docs
pub mod Unique
use ch_api_authenticator.Base.{◌≤◌}
use ch_api_authenticator.Base.Lists.{All}
use ch_api_authenticator.Base.{◌+◌, ◌-◌}
use ch_api_authenticator.Base.{
  ℕ, ◌≡◌, ◌⊎◌, Bool, true, false, ◌&&◌, Option, List, [], ◌∷◌, String, eqb, if◌then◌else◌,
}
use mathlib.Core.List.{◌++◌}
use ch_api_authenticator.Base.Lists.{any, find, filter, length}
use ch_api_authenticator.Exec.{Result, ok, err, Exec}
use Docs.{modify_first, modify_all, remove_first, remove_all, count}
use Unique.{conflict_free}

-- `write_error` is `ErrorKind::Write(WriteFailure::WriteError(e))` with the code of `e`.
pub data MongoError : Type 0 where
  write_error : ℕ → MongoError
  other_error : String → MongoError

abbrev pub duplicate_key_code : ℕ
duplicate_key_code = 11000

-- `is_duplicate_key` of repository/users.rs and repository/roles.rs.
unfoldable pub is_duplicate_key : MongoError → Bool
is_duplicate_key (write_error code) = eqb code duplicate_key_code
is_duplicate_key (other_error _) = false

pub record Store (D : Type 0) : Type 0 where
  pub docs : List D
  pub seed : ℕ

-- `identify` writes the id that an insertion chose; `conflicts` is the unique indexes' test, by
-- which no two documents of the collection are equal.
pub record Driver (D : Type 0) (identify : ℕ → D → D) (conflicts : D → D → Bool) : Type 0 where
  pub find_one : (D → Bool) → Exec (Store D) MongoError (Option D)
  pub count_documents : (D → Bool) → Exec (Store D) MongoError ℕ
  -- `find(filter).sort(before).skip(n).limit(k)`, read to its end; a limit of 0 is no limit.
  pub find_sorted : (D → Bool) → (D → D → Bool) → ℕ → ℕ → Exec (Store D) MongoError (List D)
  pub insert_one : D → Exec (Store D) MongoError ℕ
  pub update_one : (D → Bool) → (D → D) → Exec (Store D) MongoError ℕ
  -- `update_one(..).upsert(true)`: the last argument is the document that is made where none matches.
  pub upsert_one : (D → Bool) → (D → D) → D → Exec (Store D) MongoError (Unit {0})
  pub update_many : (D → Bool) → (D → D) → Exec (Store D) MongoError ℕ
  pub find_one_and_update : (D → Bool) → (D → D) → Exec (Store D) MongoError (Option D)
  pub delete_one : (D → Bool) → Exec (Store D) MongoError ℕ
  pub delete_many : (D → Bool) → Exec (Store D) MongoError ℕ
  -- Reads change no document; a search answers the first document that matches.
  pub find_one_law :
      (p : D → Bool) (s : Store D)
      → ((find_one p s).1.docs ≡ s.docs)
        × (((find_one p s).0 ≡ ok (find p s.docs))
            ⊎ ((e : MongoError) × ((find_one p s).0 ≡ err e)))
  pub count_documents_law :
      (p : D → Bool) (s : Store D)
      → ((count_documents p s).1.docs ≡ s.docs)
        × (((count_documents p s).0 ≡ ok (count p s.docs))
            ⊎ ((e : MongoError) × ((count_documents p s).0 ≡ err e)))
  pub find_sorted_law :
      (p : D → Bool) (before : D → D → Bool) (skip limit : ℕ) (s : Store D)
      → (find_sorted p before skip limit s).1.docs ≡ s.docs
  -- A search answers documents that match, and no more than its limit, where it has one.
  pub find_sorted_answer :
      (p : D → Bool) (before : D → D → Bool) (skip limit : ℕ) (s : Store D) (found : List D)
      → (find_sorted p before skip limit s).0 ≡ ok found
      → All (λ d. p d ≡ true) found × ((limit ≡ 0) ⊎ (length found ≤ limit))
  -- An insertion adds one document, which conflicts with no other.
  pub insert_one_law :
      (d : D) (s : Store D)
      → ((id : ℕ) × ((insert_one d s).0 ≡ ok id)
          × ((insert_one d s).1.docs ≡ s.docs ++ identify id d ∷ [])
          × (any (conflicts (identify id d)) s.docs ≡ false))
        ⊎ ((e : MongoError) × ((insert_one d s).0 ≡ err e)
            × (((insert_one d s).1.docs ≡ s.docs)
                ⊎ ((id : ℕ) × ((insert_one d s).1.docs ≡ s.docs ++ identify id d ∷ [])
                    × (any (conflicts (identify id d)) s.docs ≡ false))))
  -- An update of the first match; one that fails was made or not.
  pub update_one_law :
      (p : D → Bool) (u : D → D) (s : Store D)
      → (((update_one p u s).0 ≡ ok (if any p s.docs then 1 else 0))
          × ((update_one p u s).1.docs ≡ modify_first p u s.docs))
        ⊎ ((e : MongoError) × ((update_one p u s).0 ≡ err e)
            × (((update_one p u s).1.docs ≡ s.docs)
                ⊎ ((update_one p u s).1.docs ≡ modify_first p u s.docs)))
  -- An update that would break a unique index fails, and is not made.
  pub update_one-conflict_free :
      (p : D → Bool) (u : D → D) (s : Store D)
      → conflict_free conflicts s.docs ≡ true
      → conflict_free conflicts (update_one p u s).1.docs ≡ true
  pub upsert_one_law :
      (p : D → Bool) (u : D → D) (d : D) (s : Store D)
      → (((upsert_one p u d s).0 ≡ ok tt)
          × ((upsert_one p u d s).1.docs
              ≡ (if any p s.docs then modify_first p u s.docs else s.docs ++ d ∷ [])))
        ⊎ ((e : MongoError) × ((upsert_one p u d s).0 ≡ err e)
            × (((upsert_one p u d s).1.docs ≡ s.docs)
                ⊎ ((upsert_one p u d s).1.docs
                    ≡ (if any p s.docs then modify_first p u s.docs else s.docs ++ d ∷ []))))
  -- An update of each match; one that fails may have reached some of them only.
  pub update_many_law :
      (p : D → Bool) (u : D → D) (s : Store D)
      → (((update_many p u s).0 ≡ ok (count p s.docs))
          × ((update_many p u s).1.docs ≡ modify_all p u s.docs))
        ⊎ ((e : MongoError) × ((update_many p u s).0 ≡ err e)
            × (reached : D → Bool) × ((update_many p u s).1.docs
                ≡ modify_all (λ d. reached d && p d) u s.docs))
  -- The answer is the document as it was before the update.
  pub find_one_and_update_law :
      (p : D → Bool) (u : D → D) (s : Store D)
      → (((find_one_and_update p u s).0 ≡ ok (find p s.docs))
          × ((find_one_and_update p u s).1.docs ≡ modify_first p u s.docs))
        ⊎ ((e : MongoError) × ((find_one_and_update p u s).0 ≡ err e)
            × (((find_one_and_update p u s).1.docs ≡ s.docs)
                ⊎ ((find_one_and_update p u s).1.docs ≡ modify_first p u s.docs)))
  pub delete_one_law :
      (p : D → Bool) (s : Store D)
      → (((delete_one p s).0 ≡ ok (if any p s.docs then 1 else 0))
          × ((delete_one p s).1.docs ≡ remove_first p s.docs))
        ⊎ ((e : MongoError) × ((delete_one p s).0 ≡ err e)
            × (((delete_one p s).1.docs ≡ s.docs)
                ⊎ ((delete_one p s).1.docs ≡ remove_first p s.docs)))
  pub delete_many_law :
      (p : D → Bool) (s : Store D)
      → (((delete_many p s).0 ≡ ok (count p s.docs))
          × ((delete_many p s).1.docs ≡ remove_all p s.docs))
        ⊎ ((e : MongoError) × ((delete_many p s).0 ≡ err e)
            × (reached : D → Bool) × ((delete_many p s).1.docs
                ≡ remove_all (λ d. reached d && p d) s.docs))

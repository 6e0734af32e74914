-- ===== src/Examples/Memory.antt =====
-- A collection that is kept in memory and never fails but on a conflict.
use ch_api_authenticator.Exec.Laws.{ok_injective}
use ch_api_authenticator.Base.{eqb, subst, suc, zero, ◌≤◌}
use ch_api_authenticator.Base.Lists.{All, drop, length, take}
use ch_api_authenticator.Base.{true}
use ch_api_authenticator.Mongo.Unique.{conflict_free}
use ch_api_authenticator.Mongo.{Driver, Store, MongoError, write_error}
use mathlib.Core.List
use ch_api_authenticator.Mongo.{Driver, Store, MongoError, write_error}
use ch_api_authenticator.Mongo.Docs.{count, modify_all, modify_first, remove_all, remove_first}
use ch_api_authenticator.Base.Lists.{any, filter, find}
use ch_api_authenticator.Exec.{Result, err, ok}
use ch_api_authenticator.Mongo.{Driver, Store, MongoError, write_error}
use ch_api_authenticator.Base.{
  Bool, Bool-cases, List, [], arith, false, if◌then◌else◌, inl, inr, refl, ℕ, ◌+◌, ◌∷◌, ◌≡◌, ◌⊎◌,
}

module _ {D : Type 0} where
  -- A limit of zero is none.
  abbrev at_most : ℕ → List D → List D
  at_most limit ds = if eqb limit 0 then ds else take limit ds

  length-take : (n : ℕ) (ds : List D) → length (take n ds) ≤ n
  length-take zero ds = ground arith
  length-take (suc n) [] = ground arith
  length-take (suc n) (d ∷ ds) = ground (arith, length-take n ds)

  pub length-at_most : (limit : ℕ) (ds : List D) → (limit ≡ 0) ⊎ (length (at_most limit ds) ≤ limit)
  length-at_most limit ds = elim (Bool-cases (eqb limit 0)) [
    | inl unlimited ↦ inl (ground arith)
    | inr limited ↦ inr (rw limited (length-take limit ds))
  ]

  module _ (p : D → Bool) where
    pub All-filter : (ds : List D) → All (λ d. p d ≡ true) (filter p ds)
    All-filter [] = tt
    All-filter (d ∷ ds) = elim (Bool-cases (p d)) [
      | inl h ↦ rw h (h, All-filter ds)
      | inr h ↦ rw h (All-filter ds)
    ]

    All-take : (n : ℕ) (ds : List D) → All (λ d. p d ≡ true) ds → All (λ d. p d ≡ true) (take n ds)
    All-take zero ds h = tt
    All-take (suc n) [] h = tt
    All-take (suc n) (d ∷ ds) h = (h.0, All-take n ds h.1)

    pub All-drop :
        (n : ℕ) (ds : List D) → All (λ d. p d ≡ true) ds → All (λ d. p d ≡ true) (drop n ds)
    All-drop zero ds h = h
    All-drop (suc n) [] h = tt
    All-drop (suc n) (d ∷ ds) h = All-drop n ds h.1

    pub All-at_most :
        (limit : ℕ) (ds : List D)
        → All (λ d. p d ≡ true) ds
        → All (λ d. p d ≡ true) (at_most limit ds)
    All-at_most limit ds h = elim (Bool-cases (eqb limit 0)) [
      | inl unlimited ↦ rw unlimited h
      | inr limited ↦ rw limited (All-take limit ds h)
    ]

module _ {D : Type 0} (identify : ℕ → D → D) (conflicts : D → D → Bool) where
  abbrev with_docs : List D → Store D → Store D
  with_docs docs s = record s { docs = docs }

  abbrev insert_in : D → Store D → Result MongoError ℕ × Store D
  insert_in d s =
      if any (conflicts (identify s.seed d)) s.docs then (err (write_error 11000), s) else (
        ok s.seed,
        record { docs = List.◌++◌ s.docs (identify s.seed d ∷ []); seed = s.seed + 1 },
      )

  -- An update that would make two documents conflict is refused.
  abbrev update_in : (D → Bool) → (D → D) → Store D → Result MongoError ℕ × Store D
  update_in p u s =
      if conflict_free conflicts (modify_first p u s.docs)
      then (ok (if any p s.docs then 1 else 0), with_docs (modify_first p u s.docs) s)
      else (err (write_error 11000), s)

  pub update_in_law :
      (p : D → Bool) (u : D → D) (s : Store D)
      → (((update_in p u s).0 ≡ ok (if any p s.docs then 1 else 0))
          × ((update_in p u s).1.docs ≡ modify_first p u s.docs))
        ⊎ ((e : MongoError) × ((update_in p u s).0 ≡ err e)
            × (((update_in p u s).1.docs ≡ s.docs)
                ⊎ ((update_in p u s).1.docs ≡ modify_first p u s.docs)))
  update_in_law p u s = elim (Bool-cases (conflict_free conflicts (modify_first p u s.docs))) [
    | inl free ↦ inl (ground arith, ground arith)
    | inr taken ↦ inr (write_error 11000, ground arith, inl (ground arith))
  ]

  pub update_in-conflict_free :
      (p : D → Bool) (u : D → D) (s : Store D)
      → conflict_free conflicts s.docs ≡ true
      → conflict_free conflicts (update_in p u s).1.docs ≡ true
  update_in-conflict_free p u s h = ground arith

  abbrev upsert_in : (D → Bool) → (D → D) → D → List D → List D
  upsert_in p u d docs = if any p docs then modify_first p u docs else List.◌++◌ docs (d ∷ [])

  pub insert_in_law :
      (d : D) (s : Store D)
      → ((id : ℕ) × ((insert_in d s).0 ≡ ok id)
          × ((insert_in d s).1.docs ≡ List.◌++◌ s.docs (identify id d ∷ []))
          × (any (conflicts (identify id d)) s.docs ≡ false))
        ⊎ ((e : MongoError) × ((insert_in d s).0 ≡ err e)
            × (((insert_in d s).1.docs ≡ s.docs)
                ⊎ ((id : ℕ) × ((insert_in d s).1.docs ≡ List.◌++◌ s.docs (identify id d ∷ []))
                    × (any (conflicts (identify id d)) s.docs ≡ false))))
  insert_in_law d s = elim (Bool-cases (any (conflicts (identify s.seed d)) s.docs)) [
    | inl taken ↦ inr (write_error 11000, ground arith, inl (ground arith))
    | inr free ↦ inl (s.seed, ground arith, ground arith, free)
  ]

  abbrev pub memory : Driver D identify conflicts
  memory = record {
    find_one = λ p s. (ok (find p s.docs), s);
    count_documents = λ p s. (ok (count p s.docs), s);
    find_sorted = λ p before skip limit s. (ok (at_most limit (drop skip (filter p s.docs))), s);
    insert_one = insert_in;
    update_one = update_in;
    upsert_one = λ p u d s. (ok tt, with_docs (upsert_in p u d s.docs) s);
    update_many = λ p u s. (ok (count p s.docs), with_docs (modify_all p u s.docs) s);
    find_one_and_update = λ p u s. (ok (find p s.docs), with_docs (modify_first p u s.docs) s);
    delete_one = λ p s. (ok (if any p s.docs then 1 else 0), with_docs (remove_first p s.docs) s);
    delete_many = λ p s. (ok (count p s.docs), with_docs (remove_all p s.docs) s);
    find_one_law = λ p s. (refl, inl refl);
    count_documents_law = λ p s. (refl, inl refl);
    find_sorted_law = λ p before skip limit s. refl;
    find_sorted_answer = λ p before skip limit s found e.
        subst (λ ds. All (λ d. p d ≡ true) ds × ((limit ≡ 0) ⊎ (length ds ≤ limit)))
          (ok_injective _ _ _ refl e)
          (All-at_most p limit _ (All-drop p skip _ (All-filter p s.docs)), length-at_most limit _);
    insert_one_law = insert_in_law;
    update_one_law = update_in_law;
    update_one-conflict_free = update_in-conflict_free;
    upsert_one_law = λ p u d s. inl (refl, refl);
    update_many_law = λ p u s. inl (refl, refl);
    find_one_and_update_law = λ p u s. inl (refl, refl);
    delete_one_law = λ p s. inl (refl, refl);
    delete_many_law = λ p s. inl (refl, refl);
  }

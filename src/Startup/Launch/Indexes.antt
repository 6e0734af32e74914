-- ===== src/Startup/Launch/Indexes.antt =====
-- Which indexes a start leaves behind.
use mathlib.Core.List.{◌++◌}
use ch_api_authenticator.Exec.Laws.{invert_run}
use ch_api_authenticator.Mongo.{MongoError}
use ch_api_authenticator.Base.{List, [], ap, inl, inr, refl, ◌∙◌, ◌∷◌, ◌≡◌}
use ch_api_authenticator.Repository.Indexes.{IndexModel}
use ch_api_authenticator.Startup.Launch.{Host, create_indexes}
use ch_api_authenticator.Exec.{Exec, Result, continue, err, ok}
use ch_api_authenticator.Exec.{◌>>=◌}

-- The first indexes of a list were made, after those that were there.
abbrev pub IsBegun : List IndexModel → List IndexModel → List IndexModel → Type 0
IsBegun wanted before after =
    (made : List IndexModel) × (left : List IndexModel) × (made ++ left ≡ wanted)
    × (after ≡ before ++ made)

append-nil : (xs : List IndexModel) → xs ≡ xs ++ []
append-nil [] = refl
append-nil (x ∷ xs) = ap (λ t. x ∷ t) (append-nil xs)

append-cons :
    (xs : List IndexModel) (x : IndexModel) (ys : List IndexModel)
    → (xs ++ x ∷ []) ++ ys ≡ xs ++ x ∷ ys
append-cons [] x ys = refl
append-cons (z ∷ xs) x ys = ap (λ t. z ∷ t) (append-cons xs x ys)

pub IsBegun-refl : (wanted before : List IndexModel) → IsBegun wanted before before
IsBegun-refl wanted before = ([], wanted, refl, append-nil before)

module _ (host : Host) where
  continue-err :
      {A B : Type 0} (r : Result MongoError A) (f : A → Exec (List IndexModel) MongoError B)
      (s : List IndexModel) (e : MongoError)
      → r ≡ err e
      → (continue r f s).1 ≡ s
  continue-err (ok a) f s e h = cc
  continue-err (err own) f s e h = refl

  continue-ok :
      {A B : Type 0} (r : Result MongoError A) (f : A → Exec (List IndexModel) MongoError B)
      (s : List IndexModel) (a : A)
      → r ≡ ok a
      → continue r f s ≡ f a s
  continue-ok r f s a h = ap (λ r. continue r f s) h

  -- Whatever fails, the indexes that are made are the first of those that are asked for.
  pub create_indexes-IsBegun :
      (wanted before : List IndexModel)
      → IsBegun wanted before (create_indexes host wanted before).1
  unfolding create_indexes ◌>>=◌
  create_indexes-IsBegun [] before = ([], [], refl, append-nil before)
  create_indexes-IsBegun (index ∷ wanted) before = elim (host.create_index_law index before) [
    | inl (is_made, wrote) ↦
        let run =
          ap (λ r. r.1)
            (continue-ok (host.create_index index before).0 (λ _. create_indexes host wanted)
              (host.create_index index before).1 tt is_made) in
        let (made, left, all_of, after) =
          create_indexes-IsBegun wanted (host.create_index index before).1 in
        (
          index ∷ made,
          left,
          ap (λ t. index ∷ t) all_of,
          run ∙ after ∙ ap (λ t. t ++ made) wrote ∙ append-cons before index made,
        )
    | inr (e, failed, inl same) ↦ (
      [],
      index ∷ wanted,
      refl,
      continue-err (host.create_index index before).0 (λ _. create_indexes host wanted) _ e failed
          ∙ same
          ∙ append-nil before,
    )
    | inr (e, failed, inr wrote) ↦ (
      index ∷ [],
      wanted,
      refl,
      continue-err (host.create_index index before).0 (λ _. create_indexes host wanted) _ e failed
          ∙ wrote,
    )
  ]

  -- A block that succeeds has made them all.
  pub create_indexes-ok :
      (wanted before : List IndexModel)
      → (create_indexes host wanted before).0 ≡ ok tt
      → (create_indexes host wanted before).1 ≡ before ++ wanted
  unfolding create_indexes
  create_indexes-ok [] before e = append-nil before
  create_indexes-ok (index ∷ wanted) before e = invert_run _ _ _ e λ _ first run rest.
      elim (host.create_index_law index before) [
        | inl (_, wrote) ↦
            ap (λ r. r.1) run
            ∙ create_indexes-ok wanted _ rest
            ∙ ap (λ t. t ++ wanted) wrote
            ∙ append-cons before index wanted
        | inr (error, failed, _) ↦ absurd (cc)
      ]

-- ===== src/Mongo/Docs.antt =====
-- What the calls of a driver do to the documents of a collection, as functions of lists.
use ch_api_authenticator.Base.{false, none, refl}
use ch_api_authenticator.Base.{ℕ, ◌+◌, ◌≡◌, Bool, true, some, List, [], ◌∷◌, arith, if◌then◌else◌}
use ch_api_authenticator.Base.Lists.{any, find, All}

module _ {D : Type 0} where
  abbrev pub modify_first : (D → Bool) → (D → D) → List D → List D
  modify_first p u [] = []
  modify_first p u (d ∷ ds) = if p d then u d ∷ ds else d ∷ modify_first p u ds

  abbrev pub modify_all : (D → Bool) → (D → D) → List D → List D
  modify_all p u [] = []
  modify_all p u (d ∷ ds) = (if p d then u d else d) ∷ modify_all p u ds

  abbrev pub remove_first : (D → Bool) → List D → List D
  remove_first p [] = []
  remove_first p (d ∷ ds) = if p d then ds else d ∷ remove_first p ds

  abbrev pub remove_all : (D → Bool) → List D → List D
  remove_all p [] = []
  remove_all p (d ∷ ds) = if p d then remove_all p ds else d ∷ remove_all p ds

  abbrev pub count : (D → Bool) → List D → ℕ
  count p [] = 0
  count p (d ∷ ds) = (if p d then 1 else 0) + count p ds

  -- What is found matches, and a list where nothing is found holds no match.
  pub find-some : (p : D → Bool) (ds : List D) (d : D) → find p ds ≡ some d → p d ≡ true
  find-some p [] d h = cc
  find-some p (x ∷ ds) d h = ground (arith, find-some p ds d)

  pub any-find : (p : D → Bool) (ds : List D) (d : D) → find p ds ≡ some d → any p ds ≡ true
  any-find p [] d h = cc
  any-find p (x ∷ ds) d h = ground (arith, any-find p ds d)

  pub any-find-none : (p : D → Bool) (ds : List D) → find p ds ≡ none → any p ds ≡ false
  any-find-none p [] h = refl
  any-find-none p (x ∷ ds) h = ground (arith, any-find-none p ds)

module _ {D : Type 0} (P : D → Type 0) where
  -- A property of all documents outlives a change that keeps it.
  pub All-modify_first :
      (p : D → Bool) (u : D → D) (ds : List D)
      → ((d : D) → P d → P (u d))
      → All P ds
      → All P (modify_first p u ds)
  All-modify_first p u [] k h = tt
  All-modify_first p u (d ∷ ds) k h = ground (arith, k d, All-modify_first p u ds k h.1)

  pub All-modify_all :
      (p : D → Bool) (u : D → D) (ds : List D)
      → ((d : D) → P d → P (u d))
      → All P ds
      → All P (modify_all p u ds)
  All-modify_all p u [] k h = tt
  All-modify_all p u (d ∷ ds) k h = ground (arith, k d, All-modify_all p u ds k h.1)

  pub All-find : (p : D → Bool) (ds : List D) (d : D) → All P ds → find p ds ≡ some d → P d
  All-find p [] d h e = cc
  All-find p (x ∷ ds) d h e = ground (arith, All-find p ds d h.1)

  pub All-remove_first : (p : D → Bool) (ds : List D) → All P ds → All P (remove_first p ds)
  All-remove_first p [] h = tt
  All-remove_first p (d ∷ ds) h = ground (arith, All-remove_first p ds h.1)

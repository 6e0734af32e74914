-- ===== src/Mongo/Unique.antt =====
-- The unique indexes of a collection, as a test of its documents: no two of them conflict.
use mathlib.Core.List.{◌++◌}
use ch_api_authenticator.Mongo.Docs.{remove_first}
use ch_api_authenticator.Base.{arith, false, not, refl, true, ◌&&◌, ◌≡◌}
use ch_api_authenticator.Base.Lists.{any, any-append}
use ch_api_authenticator.Base.{Bool, List, [], ◌∷◌}

module _ {D : Type 0} (conflicts : D → D → Bool) where
  -- No document conflicts with one behind it.
  abbrev pub conflict_free : List D → Bool
  conflict_free [] = true
  conflict_free (d ∷ ds) = not (any (conflicts d) ds) && conflict_free ds

  pub any-remove_first :
      (p : D → Bool) (d : D) (ds : List D)
      → any (conflicts d) ds ≡ false
      → any (conflicts d) (remove_first p ds) ≡ false
  any-remove_first p d [] h = refl
  any-remove_first p d (x ∷ ds) h = ground (arith, any-remove_first p d ds)

  pub conflict_free-remove_first :
      (p : D → Bool) (ds : List D)
      → conflict_free ds ≡ true
      → conflict_free (remove_first p ds) ≡ true
  conflict_free-remove_first p [] h = refl
  conflict_free-remove_first p (x ∷ ds) h =
      ground (arith, any-remove_first p x ds, conflict_free-remove_first p ds)

  module _ (conflicts_sym : (a b : D) → conflicts a b ≡ conflicts b a) where
    pub conflict_free-append :
        (d : D) (ds : List D)
        → any (conflicts d) ds ≡ false
        → conflict_free ds ≡ true
        → conflict_free (ds ++ d ∷ []) ≡ true
    conflict_free-append d [] a h = refl
    conflict_free-append d (x ∷ ds) a h =
        ground (
          arith,
          conflicts_sym d x,
          any-append (conflicts x) ds (d ∷ []),
          conflict_free-append d ds,
        )

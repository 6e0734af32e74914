-- ===== src/Repository/OneUse.antt =====
-- What the refresh tokens and the reset tokens have in common: a token is stored under its hash,
-- which is unique, and once it is spent it stays so.
use mathlib.Core.List.{◌++◌}
use ch_api_authenticator.Mongo.Docs.{modify_all, modify_first, remove_all}
use ch_api_authenticator.Mongo.Unique.{conflict_free}
use ch_api_authenticator.Base.Lists.{all, any, find}
use ch_api_authenticator.Base.{
  List, String, [], arith, eq_iff, false, none, not, refl, some, true, ◌&&◌, ◌==◌, ◌||◌, ◌∷◌, ◌≡◌,
  ◌≢◌,
}
use ch_api_authenticator.Base.{Bool}

module _ {D : Type 0} (hash_of : D → String) (spent : D → Bool) (spend : D → D)
    (hash_kept : (d : D) → hash_of (spend d) ≡ hash_of d)
    (spends : (d : D) → spent (spend d) ≡ true) where
  abbrev pub shares_hash : D → D → Bool
  shares_hash a b = hash_of a == hash_of b

  abbrev pub hash_spent : String → D → Bool
  hash_spent h d = not (hash_of d == h) || spent d

  -- The test of a consumption; `live` is its test of the date.
  abbrev pub can_use : String → (D → Bool) → D → Bool
  can_use h live d = hash_of d == h && not (spent d) && live d

  pub shares_hash-sym : (a b : D) → shares_hash a b ≡ shares_hash b a
  shares_hash-sym a b =
      ground (arith, eq_iff (hash_of a) (hash_of b), eq_iff (hash_of b) (hash_of a))

  module _ (p : D → Bool) where
    any-spend_first :
        (t : D) (ts : List D)
        → any (shares_hash t) (modify_first p spend ts) ≡ any (shares_hash t) ts
    any-spend_first t [] = refl
    any-spend_first t (d ∷ ts) = ground (arith, hash_kept d, any-spend_first t ts)

    any-spend_all :
        (t : D) (ts : List D) → any (shares_hash t) (modify_all p spend ts) ≡ any (shares_hash t) ts
    any-spend_all t [] = refl
    any-spend_all t (d ∷ ts) = ground (arith, hash_kept d, any-spend_all t ts)

    any-remove_all :
        (t : D) (ts : List D)
        → any (shares_hash t) ts ≡ false
        → any (shares_hash t) (remove_all p ts) ≡ false
    any-remove_all t [] h = refl
    any-remove_all t (d ∷ ts) h = ground (arith, any-remove_all t ts)

    pub unique-spend_first :
        (ts : List D)
        → conflict_free shares_hash ts ≡ true
        → conflict_free shares_hash (modify_first p spend ts) ≡ true
    unique-spend_first [] u = refl
    unique-spend_first (d ∷ ts) u =
        ground (arith, hash_kept d, any-spend_first d ts, unique-spend_first ts)

    pub unique-spend_all :
        (ts : List D)
        → conflict_free shares_hash ts ≡ true
        → conflict_free shares_hash (modify_all p spend ts) ≡ true
    unique-spend_all [] u = refl
    unique-spend_all (d ∷ ts) u =
        ground (arith, hash_kept d, any-spend_all d ts, unique-spend_all ts)

    pub unique-remove_all :
        (ts : List D)
        → conflict_free shares_hash ts ≡ true
        → conflict_free shares_hash (remove_all p ts) ≡ true
    unique-remove_all [] u = refl
    unique-remove_all (d ∷ ts) u = ground (arith, any-remove_all d ts, unique-remove_all ts)

  module _ (h : String) where
    pub spent-spend_first :
        (p : D → Bool) (ts : List D)
        → all (hash_spent h) ts ≡ true
        → all (hash_spent h) (modify_first p spend ts) ≡ true
    spent-spend_first p [] a = refl
    spent-spend_first p (d ∷ ts) a = ground (arith, hash_kept d, spends d, spent-spend_first p ts)

    pub spent-spend_all :
        (p : D → Bool) (ts : List D)
        → all (hash_spent h) ts ≡ true
        → all (hash_spent h) (modify_all p spend ts) ≡ true
    spent-spend_all p [] a = refl
    spent-spend_all p (d ∷ ts) a = ground (arith, hash_kept d, spends d, spent-spend_all p ts)

    pub spent-remove_all :
        (p : D → Bool) (ts : List D)
        → all (hash_spent h) ts ≡ true
        → all (hash_spent h) (remove_all p ts) ≡ true
    spent-remove_all p [] a = refl
    spent-remove_all p (d ∷ ts) a = ground (arith, spent-remove_all p ts)

    pub spent-append :
        (ts : List D) (d : D)
        → hash_of d ≢ h
        → all (hash_spent h) ts ≡ true
        → all (hash_spent h) (ts ++ d ∷ []) ≡ true
    spent-append [] d n a = ground (arith, eq_iff (hash_of d) h)
    spent-append (t ∷ ts) d n a = ground (arith, spent-append ts d n)

    spent_of_unique :
        (t : D) (ts : List D)
        → hash_of t ≡ h
        → any (shares_hash t) ts ≡ false
        → all (hash_spent h) ts ≡ true
    spent_of_unique t [] e u = refl
    spent_of_unique t (d ∷ ts) e u =
        ground (arith, eq_iff (hash_of t) (hash_of d), eq_iff (hash_of d) h, spent_of_unique t ts e)

    -- A spent hash is not usable again.
    pub find-can_use :
        (live : D → Bool) (ts : List D)
        → all (hash_spent h) ts ≡ true
        → find (can_use h live) ts ≡ none
    find-can_use live [] a = refl
    find-can_use live (d ∷ ts) a = ground (arith, find-can_use live ts)

    -- The use of a token spends its hash.
    pub spent-use :
        (live : D → Bool) (ts : List D) (t : D)
        → conflict_free shares_hash ts ≡ true
        → find (can_use h live) ts ≡ some t
        → all (hash_spent h) (modify_first (can_use h live) spend ts) ≡ true
    spent-use live [] t u e = refl
    spent-use live (d ∷ ts) t u e = ground (
      arith,
      hash_kept d,
      spends d,
      eq_iff (hash_of d) h,
      spent_of_unique d ts,
      find-can_use live ts,
      spent-use live ts t,
    )

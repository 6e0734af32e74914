-- ===== src/Repository/RefreshTokens/Laws.antt =====
-- The documents of repository/refresh_tokens.rs under its operations: no two with one hash, and no
-- way back from revoked.
use mathlib.Core.List.{◌++◌}
use ch_api_authenticator.Base.{
  String, eq_iff, ◌≡◌, refl, ◌≢◌, Bool, true, false, not, ◌||◌, none, some, List, [], ◌∷◌, arith,
}
use ch_api_authenticator.Base.Lists.{any, all, find}
use ch_api_authenticator.Domain.User.{DateTime}
use ch_api_authenticator.Mongo.Docs.{modify_first, modify_all, remove_all}
use ch_api_authenticator.Repository.RefreshTokens.{
  RefreshToken, same_hash, revoke, is_usable, has_hash,
}

-- No two tokens have the same hash.
abbrev pub IsUnique : List RefreshToken → Type 0
IsUnique [] = Unit
IsUnique (t ∷ ts) = (any (same_hash t) ts ≡ false) × IsUnique ts

any-append_one :
    (t d : RefreshToken) (ts : List RefreshToken)
    → any (same_hash t) (ts ++ d ∷ []) ≡ (any (same_hash t) ts || same_hash t d)
any-append_one t d [] = ground arith
any-append_one t d (x ∷ ts) = ground (arith, any-append_one t d ts)

pub IsUnique-append :
    (d : RefreshToken) (ts : List RefreshToken)
    → IsUnique ts
    → any (same_hash d) ts ≡ false
    → IsUnique (ts ++ d ∷ [])
IsUnique-append d [] u h = (refl, tt)
IsUnique-append d (t ∷ ts) u h = ground (
  arith,
  any-append_one t d ts,
  eq_iff t.token_hash d.token_hash,
  eq_iff d.token_hash t.token_hash,
  IsUnique-append d ts u.1,
)

module _ (p : RefreshToken → Bool) where
  any-modify_first :
      (t : RefreshToken) (ts : List RefreshToken)
      → any (same_hash t) (modify_first p revoke ts) ≡ any (same_hash t) ts
  any-modify_first t [] = refl
  any-modify_first t (x ∷ ts) = ground (arith, any-modify_first t ts)

  any-modify_all :
      (t : RefreshToken) (ts : List RefreshToken)
      → any (same_hash t) (modify_all p revoke ts) ≡ any (same_hash t) ts
  any-modify_all t [] = refl
  any-modify_all t (x ∷ ts) = ground (arith, any-modify_all t ts)

  any-remove_all :
      (t : RefreshToken) (ts : List RefreshToken)
      → any (same_hash t) ts ≡ false
      → any (same_hash t) (remove_all p ts) ≡ false
  any-remove_all t [] h = refl
  any-remove_all t (x ∷ ts) h = ground (arith, any-remove_all t ts)

  pub IsUnique-modify_first :
      (ts : List RefreshToken) → IsUnique ts → IsUnique (modify_first p revoke ts)
  IsUnique-modify_first [] u = tt
  IsUnique-modify_first (t ∷ ts) u =
      ground (arith, any-modify_first t ts, IsUnique-modify_first ts u.1)

  pub IsUnique-modify_all :
      (ts : List RefreshToken) → IsUnique ts → IsUnique (modify_all p revoke ts)
  IsUnique-modify_all [] u = tt
  IsUnique-modify_all (t ∷ ts) u = ground (arith, any-modify_all t ts, IsUnique-modify_all ts u.1)

  pub IsUnique-remove_all : (ts : List RefreshToken) → IsUnique ts → IsUnique (remove_all p ts)
  IsUnique-remove_all [] u = tt
  IsUnique-remove_all (t ∷ ts) u = ground (arith, any-remove_all t ts, IsUnique-remove_all ts u.1)

-- A token that has the hash is revoked.
abbrev pub is_spent : String → RefreshToken → Bool
is_spent token_hash token = not (has_hash token_hash token) || token.revoked

module _ (h : String) where
  abbrev pub all_spent : List RefreshToken → Bool
  all_spent = all (is_spent h)

  pub all_spent-modify_first :
      (p : RefreshToken → Bool) (ts : List RefreshToken)
      → all_spent ts ≡ true
      → all_spent (modify_first p revoke ts) ≡ true
  all_spent-modify_first p [] a = refl
  all_spent-modify_first p (t ∷ ts) a = ground (arith, all_spent-modify_first p ts)

  pub all_spent-modify_all :
      (p : RefreshToken → Bool) (ts : List RefreshToken)
      → all_spent ts ≡ true
      → all_spent (modify_all p revoke ts) ≡ true
  all_spent-modify_all p [] a = refl
  all_spent-modify_all p (t ∷ ts) a = ground (arith, all_spent-modify_all p ts)

  pub all_spent-remove_all :
      (p : RefreshToken → Bool) (ts : List RefreshToken)
      → all_spent ts ≡ true
      → all_spent (remove_all p ts) ≡ true
  all_spent-remove_all p [] a = refl
  all_spent-remove_all p (t ∷ ts) a = ground (arith, all_spent-remove_all p ts)

  pub all_spent-append :
      (ts : List RefreshToken) (d : RefreshToken)
      → d.token_hash ≢ h
      → all_spent ts ≡ true
      → all_spent (ts ++ d ∷ []) ≡ true
  all_spent-append [] d n a = ground (arith, eq_iff d.token_hash h)
  all_spent-append (t ∷ ts) d n a = ground (arith, all_spent-append ts d n)

  all_spent_of_unique :
      (t : RefreshToken) (ts : List RefreshToken)
      → t.token_hash ≡ h
      → any (same_hash t) ts ≡ false
      → all_spent ts ≡ true
  all_spent_of_unique t [] e u = refl
  all_spent_of_unique t (x ∷ ts) e u =
      ground
        (arith, eq_iff t.token_hash x.token_hash, eq_iff x.token_hash h, all_spent_of_unique t ts e)

  -- A spent token is not usable again.
  pub find_usable_of_spent :
      (now : DateTime) (ts : List RefreshToken)
      → all_spent ts ≡ true
      → find (is_usable h now) ts ≡ none
  find_usable_of_spent now [] a = refl
  find_usable_of_spent now (t ∷ ts) a = ground (arith, find_usable_of_spent now ts)

  -- Revoking the usable token of a hash spends that hash.
  pub all_spent-rotate :
      (now : DateTime) (ts : List RefreshToken) (t : RefreshToken)
      → IsUnique ts
      → find (is_usable h now) ts ≡ some t
      → all_spent (modify_first (is_usable h now) revoke ts) ≡ true
  all_spent-rotate now [] t u e = refl
  all_spent-rotate now (x ∷ ts) t u e = ground (
    arith,
    eq_iff x.token_hash h,
    all_spent_of_unique x ts,
    find_usable_of_spent now ts,
    all_spent-rotate now ts t u.1,
  )

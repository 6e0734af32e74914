-- ===== src/Repository/RefreshTokens/Calls.antt =====
-- What a call of repository/refresh_tokens.rs that succeeds found and wrote.
use ch_api_authenticator.Repository.RefreshTokens.{same_hash}
use ch_api_authenticator.Base.{inl, inr, ◌⊎◌}
use ch_api_authenticator.Base.Lists.{any}
use ch_api_authenticator.Exec.{◌>>=◌}
use mathlib.Core.List.{◌++◌}
use ch_api_authenticator.Base.{
  ℕ, String, ◌≡◌, refl, Bool, true, false, not, some, List, [], ◌∷◌, arith,
}
use ch_api_authenticator.Base.Lists.{all, find}
use ch_api_authenticator.Exec.{ok}
use ch_api_authenticator.Domain.User.{ObjectId, DateTime}
use ch_api_authenticator.Mongo.{Store}
use ch_api_authenticator.Mongo.Docs.{modify_first, modify_all}
use ch_api_authenticator.Repository.Dates.{expiry}
use ch_api_authenticator.Repository.RefreshTokens.{
  RefreshToken, RefreshTokens, rotated, is_usable, has_hash, revoke, is_live_in_family,
  is_live_of_user, create, consume_for_rotation, revoke_family, revoke_all_for_user,
}

-- The token that `create` stores.
abbrev pub created : DateTime → ObjectId → ObjectId → String → ℕ → RefreshToken
created now user_id family_id token_hash ttl = record {
  user_id = user_id;
  family_id = family_id;
  token_hash = token_hash;
  expires_at = expiry now ttl;
  revoked = false;
  created_at = now;
}

-- No token of the list that the test picks is live.
abbrev pub none_live : (RefreshToken → Bool) → List RefreshToken → Bool
none_live p = all (λ t. not (p t))

none_live_of_family :
    (family_id : ObjectId) (ts : List RefreshToken)
    → none_live (is_live_in_family family_id) (modify_all (is_live_in_family family_id) revoke ts)
      ≡ true
none_live_of_family family_id [] = refl
none_live_of_family family_id (t ∷ ts) = ground (arith, none_live_of_family family_id ts)

none_live_of_user :
    (user_id : ObjectId) (ts : List RefreshToken)
    → none_live (is_live_of_user user_id) (modify_all (is_live_of_user user_id) revoke ts) ≡ true
none_live_of_user user_id [] = refl
none_live_of_user user_id (t ∷ ts) = ground (arith, none_live_of_user user_id ts)

module _ (collection : RefreshTokens) where
  open collection use {
    find_one, find_one_and_update, insert_one_law, find_one_law, update_many_law,
    find_one_and_update_law,
  }

  pub create-ok :
      (now : DateTime) (user_id family_id : ObjectId) (h : String) (ttl : ℕ)
      (s : Store RefreshToken)
      → (create collection now user_id family_id h ttl s).0 ≡ ok tt
      → (create collection now user_id family_id h ttl s).1.docs
        ≡ s.docs ++ created now user_id family_id h ttl ∷ []
  unfolding create ◌>>=◌
  create-ok now user_id family_id h ttl s e =
      ground (arith, insert_one_law (created now user_id family_id h ttl) s)

  pub consume-rotated :
      (now : DateTime) (h : String) (s : Store RefreshToken) (t : RefreshToken)
      → (consume_for_rotation collection now h s).0 ≡ ok (rotated t)
      → (find (is_usable h now) s.docs ≡ some t)
        × ((consume_for_rotation collection now h s).1.docs
            ≡ modify_first (is_usable h now) revoke s.docs)
  unfolding consume_for_rotation ◌>>=◌
  consume-rotated now h s t e = ground (
    arith,
    find_one_and_update_law (is_usable h now) revoke s,
    find_one_law (has_hash h) (collection.find_one_and_update (is_usable h now) revoke s).1,
  )

  pub revoke_family-ok :
      (family_id : ObjectId) (s : Store RefreshToken) (n : ℕ)
      → (revoke_family collection family_id s).0 ≡ ok n
      → none_live (is_live_in_family family_id) (revoke_family collection family_id s).1.docs ≡ true
  unfolding revoke_family
  revoke_family-ok family_id s n e = ground (
    arith,
    update_many_law (is_live_in_family family_id) revoke s,
    none_live_of_family family_id s.docs,
  )

  pub revoke_all_for_user-ok :
      (user_id : ObjectId) (s : Store RefreshToken) (n : ℕ)
      → (revoke_all_for_user collection user_id s).0 ≡ ok n
      → none_live (is_live_of_user user_id) (revoke_all_for_user collection user_id s).1.docs ≡ true
  unfolding revoke_all_for_user
  revoke_all_for_user-ok user_id s n e =
      ground (
        arith,
        update_many_law (is_live_of_user user_id) revoke s,
        none_live_of_user user_id s.docs,
      )

  -- Whatever it answers, a consumption is the revocation of the first usable token or nothing.
  pub consume-docs :
      (now : DateTime) (h : String) (s : Store RefreshToken)
      → ((consume_for_rotation collection now h s).1.docs
          ≡ modify_first (is_usable h now) revoke s.docs)
        ⊎ ((consume_for_rotation collection now h s).1.docs ≡ s.docs)
  unfolding consume_for_rotation ◌>>=◌
  consume-docs now h s = elim (find_one_and_update_law (is_usable h now) revoke s) [
    | inl (_, wrote) ↦ inl (ground (arith, searched))
    | inr (_, _, inl same) ↦ inr (ground (arith, searched))
    | inr (_, _, inr wrote) ↦ inl (ground (arith, searched))
  ]
    where
      searched :
          (find_one (has_hash h) (find_one_and_update (is_usable h now) revoke s).1).1.docs
          ≡ (find_one_and_update (is_usable h now) revoke s).1.docs
      searched = (find_one_law (has_hash h) (find_one_and_update (is_usable h now) revoke s).1).0

  pub create-docs :
      (now : DateTime) (user_id family_id : ObjectId) (h : String) (ttl : ℕ)
      (s : Store RefreshToken)
      → ((create collection now user_id family_id h ttl s).1.docs ≡ s.docs)
        ⊎ (((create collection now user_id family_id h ttl s).1.docs
              ≡ s.docs ++ created now user_id family_id h ttl ∷ [])
            × (any (same_hash (created now user_id family_id h ttl)) s.docs ≡ false))
  unfolding create ◌>>=◌
  create-docs now user_id family_id h ttl s =
      elim (insert_one_law (created now user_id family_id h ttl) s) [
        | inl (_, _, wrote, free) ↦ inr (ground arith, free)
        | inr (_, _, inl same) ↦ inl (ground arith)
        | inr (_, _, inr (_, wrote, free)) ↦ inr (ground arith, free)
      ]

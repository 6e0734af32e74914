-- ===== src/Repository/RefreshTokens/Rotation.antt =====
-- The operations of repository/refresh_tokens.rs as steps that requests take in any order, beside the
-- server's deletion of expired tokens.
use ch_api_authenticator.Exec.{◌>>=◌}
use mathlib.Core.List.{◌++◌}
use ch_api_authenticator.Base.{
  ℕ, String, ◌≡◌, ◌≢◌, Bool, true, false, ◌&&◌, List, [], ◌∷◌, arith, leb, inl, inr,
}
use ch_api_authenticator.Base.Lists.{any}
use ch_api_authenticator.Exec.{ok}
use ch_api_authenticator.Domain.User.{ObjectId, DateTime}
use ch_api_authenticator.Mongo.{Store}
use ch_api_authenticator.Mongo.Docs.{modify_first, modify_all, remove_all}
use ch_api_authenticator.Repository.Dates.{expiry}
use ch_api_authenticator.Repository.RefreshTokens.{
  RefreshToken, RefreshTokens, same_hash, rotated, is_usable, has_hash, revoke, is_live_in_family,
  is_live_of_user, create, consume_for_rotation, revoke_family, revoke_all_for_user, find_by_hash,
}
use ch_api_authenticator.Repository.RefreshTokens.Laws.{
  IsUnique, IsUnique-append, IsUnique-modify_first, IsUnique-modify_all, IsUnique-remove_all,
  all_spent, all_spent-append, all_spent-modify_first, all_spent-modify_all, all_spent-remove_all,
  all_spent-rotate, find_usable_of_spent,
}

module _ (collection : RefreshTokens) (Allowed : String → Type 0) where
  -- One call of a request, or a run of the server's task that deletes what has expired. A token is
  -- created under an allowed hash.
  pub data Step : Store RefreshToken → Store RefreshToken → Type 0 where
    creates :
        (now : DateTime) (user_id family_id : ObjectId) (token_hash : String) (ttl : ℕ)
        (s : Store RefreshToken)
        → Allowed token_hash
        → Step s (create collection now user_id family_id token_hash ttl s).1
    consumes :
        (now : DateTime) (token_hash : String) (s : Store RefreshToken)
        → Step s (consume_for_rotation collection now token_hash s).1
    revokes_family :
        (family_id : ObjectId) (s : Store RefreshToken)
        → Step s (revoke_family collection family_id s).1
    revokes_user :
        (user_id : ObjectId) (s : Store RefreshToken)
        → Step s (revoke_all_for_user collection user_id s).1
    looks_up :
        (token_hash : String) (s : Store RefreshToken)
        → Step s (find_by_hash collection token_hash s).1
    expires :
        (now : DateTime) (reached : RefreshToken → Bool) (seed : ℕ) (s : Store RefreshToken)
        → Step s (record {
          docs = remove_all (λ t. reached t && leb t.expires_at now) s.docs;
          seed = seed;
        })

  pub data Steps (s : Store RefreshToken) : Store RefreshToken → Type 0 where
    here : Steps s s
    next : {t u : Store RefreshToken} → Steps s t → Step t u → Steps s u

-- A property of the documents that each change made by the operations keeps.
record IsKept (Allowed : String → Type 0) (P : List RefreshToken → Type 0) : Type 0 where
  by_first :
      (p : RefreshToken → Bool) (ts : List RefreshToken) → P ts → P (modify_first p revoke ts)
  by_all : (p : RefreshToken → Bool) (ts : List RefreshToken) → P ts → P (modify_all p revoke ts)
  by_removal : (p : RefreshToken → Bool) (ts : List RefreshToken) → P ts → P (remove_all p ts)
  by_insertion :
      (d : RefreshToken) (ts : List RefreshToken)
      → Allowed d.token_hash
      → any (same_hash d) ts ≡ false
      → P ts
      → P (ts ++ d ∷ [])

module _ (collection : RefreshTokens) where
  open collection use {find_one_law, insert_one_law, update_many_law, find_one_and_update_law}

  module _ {Allowed : String → Type 0} (P : List RefreshToken → Type 0) (k : IsKept Allowed P) where
    create-keeps :
        (now : DateTime) (user_id family_id : ObjectId) (h : String) (ttl : ℕ)
        (s : Store RefreshToken)
        → Allowed h
        → P s.docs
        → P (create collection now user_id family_id h ttl s).1.docs
    unfolding create ◌>>=◌
    create-keeps now user_id family_id h ttl s a held =
        ground (arith, insert_one_law fresh s, k.by_insertion fresh s.docs a)
      where
        fresh : RefreshToken
        fresh = record {
          user_id = user_id;
          family_id = family_id;
          token_hash = h;
          expires_at = expiry now ttl;
          revoked = false;
          created_at = now;
        }

    consume-keeps :
        (now : DateTime) (h : String) (s : Store RefreshToken)
        → P s.docs
        → P (consume_for_rotation collection now h s).1.docs
    unfolding consume_for_rotation ◌>>=◌
    consume-keeps now h s held = ground (
      arith,
      find_one_and_update_law (is_usable h now) revoke s,
      find_one_law (has_hash h) (collection.find_one_and_update (is_usable h now) revoke s).1,
      k.by_first (is_usable h now) s.docs held,
    )

    update_many-keeps :
        (p : RefreshToken → Bool) (s : Store RefreshToken)
        → P s.docs
        → P (collection.update_many p revoke s).1.docs
    update_many-keeps p s held = elim (update_many_law p revoke s) [
      | inl (_, e) ↦ rw e (k.by_all p s.docs held)
      | inr (_, _, reached, e) ↦ rw e (k.by_all (λ d. reached d && p d) s.docs held)
    ]

    Step-keeps : {s t : Store RefreshToken} → Step collection Allowed s t → P s.docs → P t.docs
    unfolding revoke_family revoke_all_for_user find_by_hash
    Step-keeps (creates now user_id family_id h ttl s a) held =
        create-keeps now user_id family_id h ttl s a held
    Step-keeps (consumes now h s) held = consume-keeps now h s held
    Step-keeps (revokes_family family_id s) held =
        update_many-keeps (is_live_in_family family_id) s held
    Step-keeps (revokes_user user_id s) held = update_many-keeps (is_live_of_user user_id) s held
    Step-keeps (looks_up h s) held = rw (find_one_law (has_hash h) s).0 held
    Step-keeps (expires now reached seed s) held =
        k.by_removal (λ t. reached t && leb t.expires_at now) s.docs held

    Steps-keeps : {s t : Store RefreshToken} → Steps collection Allowed s t → P s.docs → P t.docs
    Steps-keeps here held = held
    Steps-keeps (next steps step) held = Step-keeps step (Steps-keeps steps held)

abbrev AnyHash : String → Type 0
AnyHash h = Unit

IsUnique-kept : IsKept AnyHash IsUnique
IsUnique-kept = record {
  by_first = IsUnique-modify_first;
  by_all = IsUnique-modify_all;
  by_removal = IsUnique-remove_all;
  by_insertion = λ d ts a free u. IsUnique-append d ts u free;
}

abbrev OtherThan : String → String → Type 0
OtherThan h g = g ≢ h

abbrev AllSpent : String → List RefreshToken → Type 0
AllSpent h ts = all_spent h ts ≡ true

AllSpent-kept : (h : String) → IsKept (OtherThan h) (AllSpent h)
AllSpent-kept h = record {
  by_first = all_spent-modify_first h;
  by_all = all_spent-modify_all h;
  by_removal = all_spent-remove_all h;
  by_insertion = λ d ts a free s. all_spent-append h ts d a s;
}

module _ (collection : RefreshTokens) where
  open collection use {find_one_law, find_one_and_update_law}

  consume-AllSpent :
      (now : DateTime) (h : String) (s : Store RefreshToken) (t : RefreshToken)
      → IsUnique s.docs
      → (consume_for_rotation collection now h s).0 ≡ ok (rotated t)
      → AllSpent h (consume_for_rotation collection now h s).1.docs
  unfolding consume_for_rotation ◌>>=◌
  consume-AllSpent now h s t u e = ground (
    arith,
    find_one_and_update_law (is_usable h now) revoke s,
    find_one_law (has_hash h) (collection.find_one_and_update (is_usable h now) revoke s).1,
    all_spent-rotate h now s.docs t u,
  )

  consume_of_AllSpent :
      (now : DateTime) (h : String) (s : Store RefreshToken) (t : RefreshToken)
      → AllSpent h s.docs
      → (consume_for_rotation collection now h s).0 ≢ ok (rotated t)
  unfolding consume_for_rotation ◌>>=◌
  consume_of_AllSpent now h s t a e = ground (
    arith,
    find_one_and_update_law (is_usable h now) revoke s,
    find_one_law (has_hash h) (collection.find_one_and_update (is_usable h now) revoke s).1,
    find_usable_of_spent h now s.docs a,
  )

  -- Whatever requests interleave, from an empty collection on: once the rotation of a token has
  -- succeeded, no later rotation of that token does, as long as no new token has its hash.
  pub rotation_once :
      (now later : DateTime) (h : String) (empty s u : Store RefreshToken) (t t' : RefreshToken)
      → empty.docs ≡ []
      → Steps collection AnyHash empty s
      → (consume_for_rotation collection now h s).0 ≡ ok (rotated t)
      → Steps collection (OtherThan h) (consume_for_rotation collection now h s).1 u
      → (consume_for_rotation collection later h u).0 ≢ ok (rotated t')
  rotation_once now later h empty s u t t' none_yet before won between =
      let unique : IsUnique s.docs =
        Steps-keeps collection IsUnique IsUnique-kept before (rw none_yet tt) in
      consume_of_AllSpent later h u t' (
        Steps-keeps collection (AllSpent h) (AllSpent-kept h) between
          (consume-AllSpent now h s t unique won))

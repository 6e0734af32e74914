-- ===== src/Repository/ResetTokens/Calls.antt =====
-- What a call of repository/reset_tokens.rs that succeeds found and wrote.
use mathlib.Core.List
use ch_api_authenticator.Exec.{ok}
use ch_api_authenticator.Mongo.Docs.{modify_first, remove_all}
use ch_api_authenticator.Base.Lists.{find}
use ch_api_authenticator.Repository.Dates.{expiry}
use ch_api_authenticator.Mongo.{Store}
use ch_api_authenticator.Repository.ResetTokens.{
  ResetToken, ResetTokens, consume, is_of_user, is_usable, replace_for_user, use_up,
}
use ch_api_authenticator.Base.{Option, String, [], arith, false, ℕ, ◌∷◌, ◌≡◌}
use ch_api_authenticator.Domain.User.{DateTime, ObjectId}
use ch_api_authenticator.Exec.{◌>>=◌}

-- The token that `replace_for_user` stores.
abbrev pub replacement : DateTime → ObjectId → String → ℕ → ResetToken
replacement now user_id token_hash ttl_seconds = record {
  user_id = user_id;
  token_hash = token_hash;
  expires_at = expiry now ttl_seconds;
  used = false;
  created_at = now;
}

module _ (collection : ResetTokens) where
  open collection use {find_one_and_update_law, delete_many_law, insert_one_law}

  pub consume-ok :
      (now : DateTime) (h : String) (s : Store ResetToken) (found : Option ResetToken)
      → (consume collection now h s).0 ≡ ok found
      → (found ≡ find (is_usable h now) s.docs)
        × ((consume collection now h s).1.docs ≡ modify_first (is_usable h now) use_up s.docs)
  unfolding consume
  consume-ok now h s found e = ground (arith, find_one_and_update_law (is_usable h now) use_up s)

  pub replace_for_user-ok :
      (now : DateTime) (user_id : ObjectId) (h : String) (ttl : ℕ) (s : Store ResetToken)
      → (replace_for_user collection now user_id h ttl s).0 ≡ ok tt
      → (replace_for_user collection now user_id h ttl s).1.docs
        ≡ List.◌++◌ (remove_all (is_of_user user_id) s.docs) (replacement now user_id h ttl ∷ [])
  unfolding replace_for_user ◌>>=◌
  replace_for_user-ok now user_id h ttl s e = ground (
    arith,
    delete_many_law (is_of_user user_id) s,
    insert_one_law (replacement now user_id h ttl)
        (collection.delete_many (is_of_user user_id) s).1,
  )

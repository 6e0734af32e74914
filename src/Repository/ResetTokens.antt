-- ===== src/Repository/ResetTokens.antt =====
-- repository/reset_tokens.rs: one reset token at a time for each account, used once.
pub mod Calls
use ch_api_authenticator.Exec.{◌>>=◌}
use ch_api_authenticator.Base.{ℕ, String, ◌==◌, Bool, true, false, not, ◌&&◌, Option, ltb, eqb}
use ch_api_authenticator.Exec.{Exec, pure, ◌>>◌}
use ch_api_authenticator.Domain.User.{ObjectId, DateTime}
use ch_api_authenticator.Mongo.{Driver, Store, MongoError}
use ch_api_authenticator.Repository.Dates.{expiry}

pub record ResetToken : Type 0 where
  pub user_id : ObjectId
  pub token_hash : String
  pub expires_at : DateTime
  pub used : Bool
  pub created_at : DateTime

abbrev pub identify : ObjectId → ResetToken → ResetToken
identify id token = token

abbrev pub same_hash : ResetToken → ResetToken → Bool
same_hash a b = a.token_hash == b.token_hash

abbrev pub ResetTokens : Type 0
ResetTokens = Driver ResetToken identify same_hash

abbrev pub is_of_user : ObjectId → ResetToken → Bool
is_of_user user_id token = eqb token.user_id user_id

-- doc! { "token_hash": token_hash, "used": false, "expires_at": { "$gt": DateTime::now() } }
abbrev pub is_usable : String → DateTime → ResetToken → Bool
is_usable token_hash now token =
    token.token_hash == token_hash && not token.used && ltb now token.expires_at

abbrev pub use_up : ResetToken → ResetToken
use_up token = record token { used = true }

module _ (collection : ResetTokens) where
  open collection use {insert_one, delete_many, find_one_and_update, count_documents}

  unfoldable pub replace_for_user :
      DateTime → ObjectId → String → ℕ → Exec (Store ResetToken) MongoError (Unit {0})
  replace_for_user now user_id token_hash ttl_seconds = do
    delete_many (is_of_user user_id)
    insert_one (record {
      user_id = user_id;
      token_hash = token_hash;
      expires_at = expiry now ttl_seconds;
      used = false;
      created_at = now;
    })
    pure tt

  unfoldable pub consume :
      DateTime → String → Exec (Store ResetToken) MongoError (Option ResetToken)
  consume now token_hash = find_one_and_update (is_usable token_hash now) use_up

  unfoldable pub count_for_user : ObjectId → Exec (Store ResetToken) MongoError ℕ
  count_for_user user_id = count_documents (is_of_user user_id)

-- ===== src/Repository/RefreshTokens.antt =====
-- repository/refresh_tokens.rs: the refresh tokens, known by their hashes, in families that begin at
-- a login. `ensure_indexes` makes `token_hash` unique and lets the server delete what has expired.
pub mod Laws
pub mod Calls
pub mod Rotation
use ch_api_authenticator.Base.{
  ℕ, String, ◌==◌, Bool, true, false, not, ◌&&◌, Option, none, some, ltb, eqb, if◌then◌else◌,
}
use ch_api_authenticator.Exec.{Exec, ok, err, pure, ◌>>=◌, ◌>>◌}
use ch_api_authenticator.Domain.User.{ObjectId, DateTime}
use ch_api_authenticator.Mongo.{Driver, Store, MongoError}
use ch_api_authenticator.Repository.Dates.{expiry}

pub record RefreshToken : Type 0 where
  pub user_id : ObjectId
  pub family_id : ObjectId
  pub token_hash : String
  pub expires_at : DateTime
  pub revoked : Bool
  pub created_at : DateTime

pub data RotationOutcome : Type 0 where
  rotated reuse_detected : RefreshToken → RotationOutcome
  unknown : RotationOutcome

-- The stored struct has no id field.
abbrev pub identify : ObjectId → RefreshToken → RefreshToken
identify id token = token

abbrev pub same_hash : RefreshToken → RefreshToken → Bool
same_hash a b = a.token_hash == b.token_hash

abbrev pub RefreshTokens : Type 0
RefreshTokens = Driver RefreshToken identify same_hash

abbrev pub revoke : RefreshToken → RefreshToken
revoke token = record token { revoked = true }

-- doc! { "token_hash": token_hash, "revoked": false, "expires_at": { "$gt": DateTime::now() } }
abbrev pub is_usable : String → DateTime → RefreshToken → Bool
is_usable token_hash now token =
    token.token_hash == token_hash && not token.revoked && ltb now token.expires_at

abbrev pub has_hash : String → RefreshToken → Bool
has_hash token_hash token = token.token_hash == token_hash

abbrev pub is_live_in_family : ObjectId → RefreshToken → Bool
is_live_in_family family_id token = eqb token.family_id family_id && not token.revoked

abbrev pub is_live_of_user : ObjectId → RefreshToken → Bool
is_live_of_user user_id token = eqb token.user_id user_id && not token.revoked

abbrev reused : Option RefreshToken → RotationOutcome
reused none = unknown
reused (some token) = if token.revoked then reuse_detected token else unknown

module _ (collection : RefreshTokens) where
  open collection use {find_one, insert_one, update_many, find_one_and_update}

  unfoldable pub create :
      DateTime → ObjectId → ObjectId → String → ℕ → Exec (Store RefreshToken) MongoError (Unit {0})
  create now user_id family_id token_hash ttl_seconds = do
    insert_one (record {
      user_id = user_id;
      family_id = family_id;
      token_hash = token_hash;
      expires_at = expiry now ttl_seconds;
      revoked = false;
      created_at = now;
    })
    pure tt

  rotation_of : String → Option RefreshToken → Exec (Store RefreshToken) MongoError RotationOutcome
  rotation_of token_hash (some token) = pure (rotated token)
  rotation_of token_hash none = do found ← find_one (has_hash token_hash); pure (reused found)

  unfoldable pub consume_for_rotation :
      DateTime → String → Exec (Store RefreshToken) MongoError RotationOutcome
  unfolding rotation_of
  consume_for_rotation now token_hash = do
    updated ← find_one_and_update (is_usable token_hash now) revoke
    rotation_of token_hash updated

  unfoldable pub revoke_family : ObjectId → Exec (Store RefreshToken) MongoError ℕ
  revoke_family family_id = update_many (is_live_in_family family_id) revoke

  unfoldable pub revoke_all_for_user : ObjectId → Exec (Store RefreshToken) MongoError ℕ
  revoke_all_for_user user_id = update_many (is_live_of_user user_id) revoke

  unfoldable pub find_by_hash : String → Exec (Store RefreshToken) MongoError (Option RefreshToken)
  find_by_hash token_hash = find_one (has_hash token_hash)

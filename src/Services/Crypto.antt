-- ===== src/Services/Crypto.antt =====
-- What the handlers use of services/password.rs and services/secure_token.rs; the salt and the token
-- are drawn by the caller. `Crates` is the code behind it.
pub mod Crates
use ch_api_authenticator.Base.{String, ◌≡◌, Bool, true, Option, some}

pub record Crypto : Type 0 where
  -- `password::hash` with its salt; `none` is an error of the crate.
  pub hash_password : String → String → Option String
  -- `password::verify`, false where the stored hash does not parse.
  pub verify_password : String → String → Bool
  -- `secure_token::hash`
  pub hash_token : String → String
  -- A password verifies against its own hash.
  pub verify_hash :
      (salt password hash : String)
      → hash_password salt password ≡ some hash
      → verify_password password hash ≡ true

-- ===== src/Services/Crypto/Crates.antt =====
-- services/password.rs and services/secure_token.rs over the crates that they call: Argon2, SHA-256,
-- and the printing of bytes. They fill the interface that the rest of the service uses.
use ch_api_authenticator.Services.Jwt.{read}
use ch_api_authenticator.Base.{Bool, Option, String, ap, false, none, some, true, ◌∙◌, ◌≡◌}
use ch_api_authenticator.Services.Crypto.{Crypto}

-- `Argon2::default()` and `PasswordHash`, whose parsed form is the crate's own.
pub record Argon2 (Parsed : Type 0) : Type 0 where
  pub hash_password : String → String → Option String
  pub parse : String → Option Parsed
  pub verify_password : String → Parsed → Bool
  -- What is printed of a hash is read again, as a hash that its password verifies against.
  pub hash_password_law :
      (password salt printed : String)
      → hash_password password salt ≡ some printed
      → (parsed : Parsed) × (parse printed ≡ some parsed) × (verify_password password parsed ≡ true)

-- `hex::encode` and `Sha256::digest`.
pub record TokenCrates (Bytes : Type 0) : Type 0 where
  pub encode_hex : Bytes → String
  pub sha256 : String → Bytes

module _ {Parsed : Type 0} (crate : Argon2 Parsed) where
  -- `password::hash`, with the salt that it draws.
  abbrev pub hash : String → String → Option String
  hash salt password = crate.hash_password password salt

  abbrev verify_parsed : String → Option Parsed → Bool
  verify_parsed password none = false
  verify_parsed password (some parsed) = crate.verify_password password parsed

  -- `password::verify`
  abbrev pub verify : String → String → Bool
  verify password stored_hash = verify_parsed password (crate.parse stored_hash)

  pub verify-hash :
      (salt password printed : String)
      → hash salt password ≡ some printed
      → verify password printed ≡ true
  verify-hash salt password printed e =
      let (parsed, read, verified) = crate.hash_password_law password salt printed e in
      ap (verify_parsed password) read ∙ verified

  -- A stored hash that does not parse verifies no password.
  pub verify-unparsed :
      (password stored_hash : String)
      → crate.parse stored_hash ≡ none
      → verify password stored_hash ≡ false
  verify-unparsed password stored_hash e = ap (verify_parsed password) e

module _ {Bytes : Type 0} (crates : TokenCrates Bytes) where
  -- `secure_token::generate`, of the 32 bytes that it draws.
  abbrev pub generate : Bytes → String
  generate bytes = crates.encode_hex bytes

  abbrev pub hash_token : String → String
  hash_token token = crates.encode_hex (crates.sha256 token)

abbrev pub crypto_of : {Parsed Bytes : Type 0} → Argon2 Parsed → TokenCrates Bytes → Crypto
crypto_of crate crates = record {
  hash_password = hash crate;
  verify_password = verify crate;
  hash_token = hash_token crates;
  verify_hash = verify-hash crate;
}

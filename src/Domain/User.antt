-- ===== src/Domain/User.antt =====
-- domain/user.rs and domain/terms.rs. A date is its number of milliseconds since 1970.
use ch_api_authenticator.Base.{ℕ, String, Bool, false, Option, none, some, List, []}
use ch_api_authenticator.Base.Text.{trim}

-- An ObjectId is the number that its twelve bytes write.
abbrev pub ObjectId : Type 0
ObjectId = ℕ

abbrev pub DateTime : Type 0
DateTime = ℕ

abbrev pub current_terms_version : String
current_terms_version = "v1"

pub data AccountStatus : Type 0 where
  pending_validation active disabled : AccountStatus

pub record User : Type 0 where
  pub id : Option ObjectId
  pub name : String
  pub email : String
  pub password_hash : String
  pub roles : List String
  pub status : AccountStatus
  pub whitelist_only : Bool
  pub allowed_ips : List String
  pub terms_accepted_at : Option DateTime
  pub terms_version : Option String
  pub created_at : DateTime
  pub updated_at : DateTime

-- `raw.trim().to_lowercase()`; the case tables of Unicode are a parameter.
unfoldable pub normalize_email : (String → String) → String → String
normalize_email to_lowercase raw = to_lowercase (trim raw)

-- `User::new` at the time `now`.
unfoldable pub new : (String → String) → DateTime → String → String → List String → User
new to_lowercase now email password_hash roles = record {
  id = none;
  name = "";
  email = normalize_email to_lowercase email;
  password_hash = password_hash;
  roles = roles;
  status = active;
  whitelist_only = false;
  allowed_ips = [];
  terms_accepted_at = none;
  terms_version = none;
  created_at = now;
  updated_at = now;
}

unfoldable pub accept_terms : DateTime → String → User → User
accept_terms now version user = record user {
  terms_accepted_at = some now;
  terms_version = some version;
}

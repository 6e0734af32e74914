-- ===== src/Repository/Indexes.antt =====
-- The indexes that the repositories ask for: `ensure_indexes` of each file of repository/.
use ch_api_authenticator.Base.{Bool, List, Option, String, [], false, none, some, true, ℕ, ◌∷◌}

pub data Collection : Type 0 where
  users roles reset_tokens login_events refresh_tokens : Collection

-- `expire_after` is in seconds.
pub record IndexModel : Type 0 where
  pub collection : Collection
  pub key : String
  pub unique : Bool
  pub expire_after : Option ℕ

abbrev plain : Collection → String → IndexModel
plain collection key = record {
  collection = collection;
  key = key;
  unique = false;
  expire_after = none;
}

abbrev unique_on : Collection → String → IndexModel
unique_on collection key = record {
  collection = collection;
  key = key;
  unique = true;
  expire_after = none;
}

abbrev expiring : Collection → String → IndexModel
expiring collection key = record {
  collection = collection;
  key = key;
  unique = false;
  expire_after = some 0;
}

-- `ensure_indexes` of each repository, in the order in which it creates them.
abbrev pub user_indexes : List IndexModel
user_indexes = unique_on users "email" ∷ []

unfoldable pub role_indexes : List IndexModel
role_indexes = unique_on roles "name" ∷ []

unfoldable pub reset_token_indexes : List IndexModel
reset_token_indexes = expiring reset_tokens "expires_at" ∷ unique_on reset_tokens "token_hash" ∷ []

unfoldable pub login_event_indexes : List IndexModel
login_event_indexes = plain login_events "created_at" ∷ []

unfoldable pub refresh_token_indexes : List IndexModel
refresh_token_indexes =
    expiring refresh_tokens "expires_at"
    ∷ unique_on refresh_tokens "token_hash"
    ∷ plain refresh_tokens "family_id"
    ∷ plain refresh_tokens "user_id"
    ∷ []

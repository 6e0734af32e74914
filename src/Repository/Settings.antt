-- ===== src/Repository/Settings.antt =====
-- repository/settings.rs: one document, the global settings.
pub mod Calls
use ch_api_authenticator.Exec.{◌>>◌}
use ch_api_authenticator.Base.{ℕ, String, ◌==◌, Bool, true, Option, none, some}
use ch_api_authenticator.Exec.{Exec, pure, ◌>>=◌}
use ch_api_authenticator.Mongo.{Driver, Store, MongoError}

abbrev pub settings_id : String
settings_id = "global"

pub record GlobalSettings : Type 0 where
  pub id : String
  pub registration_enabled : Bool

abbrev pub is_global : GlobalSettings → Bool
is_global settings = settings.id == settings_id

-- The `_id` of this collection is the text that the service gives.
abbrev pub identify : ℕ → GlobalSettings → GlobalSettings
identify id settings = settings

abbrev pub same_settings : GlobalSettings → GlobalSettings → Bool
same_settings a b = a.id == b.id

abbrev pub GlobalSettingsCollection : Type 0
GlobalSettingsCollection = Driver GlobalSettings identify same_settings

abbrev pub enabled_of : Option GlobalSettings → Bool
enabled_of none = true
enabled_of (some settings) = settings.registration_enabled

abbrev pub with_enabled : Bool → GlobalSettings → GlobalSettings
with_enabled enabled settings = record settings { registration_enabled = enabled }

module _ (collection : GlobalSettingsCollection) where
  open collection use {find_one, upsert_one, find_one_law, upsert_one_law}

  unfoldable pub registration_enabled : Exec (Store GlobalSettings) MongoError Bool
  registration_enabled = do settings ← find_one is_global; pure (enabled_of settings)

  unfoldable pub set_registration_enabled : Bool → Exec (Store GlobalSettings) MongoError (Unit {0})
  set_registration_enabled enabled =
      upsert_one is_global (with_enabled enabled)
        (record { id = settings_id; registration_enabled = enabled })

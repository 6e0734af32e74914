-- ===== src/Repository/Settings/Calls.antt =====
-- What a call of repository/settings.rs that succeeds found and wrote.
use ch_api_authenticator.Base.{refl}
use ch_api_authenticator.Exec.{ok}
use ch_api_authenticator.Mongo.Docs.{modify_first}
use ch_api_authenticator.Base.Lists.{any, find}
use ch_api_authenticator.Mongo.{Store}
use ch_api_authenticator.Repository.Settings.{
  GlobalSettings, GlobalSettingsCollection, enabled_of, is_global, registration_enabled,
  set_registration_enabled, settings_id, with_enabled,
}
use ch_api_authenticator.Base.{Bool, List, [], arith, if◌then◌else◌, ◌∷◌, ◌≡◌}
use mathlib.Core.List.{◌++◌}
use ch_api_authenticator.Exec.{◌>>=◌}

module _ (collection : GlobalSettingsCollection) where
  pub registration_enabled-ok :
      (s : Store GlobalSettings) (enabled : Bool)
      → (registration_enabled collection s).0 ≡ ok enabled
      → enabled ≡ enabled_of (find is_global s.docs)
  unfolding registration_enabled ◌>>=◌
  registration_enabled-ok s enabled e = ground (arith, collection.find_one_law is_global s)

  set_enabled :
      (enabled : Bool) (docs : List GlobalSettings)
      → enabled_of (
          find is_global (
            if any is_global docs
            then modify_first is_global (with_enabled enabled) docs
            else docs ++ record { id = settings_id; registration_enabled = enabled } ∷ []))
        ≡ enabled
  set_enabled enabled [] = refl
  set_enabled enabled (settings ∷ docs) = ground (arith, set_enabled enabled docs)

  -- A setting that is written is the one that is read next, given that both calls succeed.
  pub set_registration_enabled-get :
      (s : Store GlobalSettings) (enabled found : Bool)
      → (set_registration_enabled collection enabled s).0 ≡ ok tt
      → (registration_enabled collection (set_registration_enabled collection enabled s).1).0
        ≡ ok found
      → found ≡ enabled
  unfolding set_registration_enabled
  set_registration_enabled-get s enabled found e h = ground (
    arith,
    registration_enabled-ok (set_registration_enabled collection enabled s).1 found h,
    collection.upsert_one_law is_global (with_enabled enabled)
        (record { id = settings_id; registration_enabled = enabled }) s,
    set_enabled enabled s.docs,
  )

-- ===== src/Handlers/Settings.antt =====
-- handlers/settings.rs: whether the public may register.
use ch_api_authenticator.Exec.{◌>>=◌, ◌>>◌}
use ch_api_authenticator.Repository.Settings.{registration_enabled, set_registration_enabled}
use ch_api_authenticator.Handlers.Request.{administrator}
use ch_api_authenticator.Exec.{Result, lift_err, pure}
use ch_api_authenticator.Error.{JsonRejection, from_rejection}
use ch_api_authenticator.Base.{Bool}
use ch_api_authenticator.State.{Ambient, AppState, Handler, Platform, in_settings, or_internal}

-- The answer's `enabled`.
module _ (x : Platform) where
  unfoldable pub get_registration : Handler Bool
  get_registration = or_internal (in_settings (registration_enabled x.settings))

module _ (x : Platform) (state : AppState) (ambient : Ambient) where
  unfoldable pub update_registration : Result JsonRejection Bool → Handler Bool
  update_registration payload = do
    administrator x state ambient
    enabled ← lift_err from_rejection payload
    or_internal (in_settings (set_registration_enabled x.settings enabled))
    pure enabled

-- ===== src/Service/Requests/Guards.antt =====
-- Which requests are for administrators, and that they are refused before anything is read or
-- written.
use ch_api_authenticator.Middleware.Auth.Refusals.{portal_admin-status}
use ch_api_authenticator.Middleware.Auth.{portal_admin}
use ch_api_authenticator.Handlers.Request.{administrator}
use ch_api_authenticator.Exec.Laws.{Result-cases}
use ch_api_authenticator.Exec.{Result, err, lift, ◌>>=◌}
use ch_api_authenticator.Handlers.Admin.Laws.{IsAdministrator}
use ch_api_authenticator.Services.Jwt.{Claims}
use ch_api_authenticator.Base.{Bool, ap, false, inl, inr, true, ◌≡◌, ◌⊎◌}
use ch_api_authenticator.Error.{AppError, status_of}
use ch_api_authenticator.Service.Requests.{
  Answer, Request, change, create_role, delete_role, delete_user, forgot, get_me, get_registration,
  get_user, list_pending, list_roles, list_users, login, logout, refresh, register, reset,
  resolve_users, serve, traffic, update_me, update_password, update_registration, update_roles,
  update_status, update_user, update_whitelist, validate,
}
use ch_api_authenticator.State.{Ambient, AppState, Handler, Platform, World, seconds}
use ch_api_authenticator.Handlers.Settings
use ch_api_authenticator.Handlers.Admin
use ch_api_authenticator.Handlers.Admin.Pages
use ch_api_authenticator.Handlers.Analytics
use ch_api_authenticator.Handlers.Roles

abbrev pub is_administrative : Request → Bool
is_administrative (update_registration _) = true
is_administrative (list_users _) = true
is_administrative (list_pending _) = true
is_administrative (get_user _) = true
is_administrative (delete_user _) = true
is_administrative (update_user _ _) = true
is_administrative (update_status _ _) = true
is_administrative (update_password _ _) = true
is_administrative (update_roles _ _) = true
is_administrative (update_whitelist _ _) = true
is_administrative (traffic _) = true
is_administrative list_roles = true
is_administrative (create_role _) = true
is_administrative (delete_role _) = true
is_administrative _ = false

module _ (x : Platform) (state : AppState) (ambient : Ambient) where
  abbrev admitted : Result AppError Claims
  admitted =
      portal_admin x.jwt state.jwt state.settings.config.token.cookie_name
        (seconds (ambient.clock 0)) ambient.headers

  -- A refused token leaves no more to run.
  refused :
      {A : Type 0} (f : Claims → Handler A) (g : A → Handler Answer) (w : World) (e : AppError)
      → admitted ≡ err e
      → ((lift admitted >>= f) >>= g) w ≡ (err e, w)
  unfolding ◌>>=◌
  refused f g w e h = ap (λ r. ((lift r >>= f) >>= g) w) h

  refused_request :
      (request : Request) (w : World) (e : AppError)
      → is_administrative request ≡ true
      → admitted ≡ err e
      → serve x state ambient request w ≡ (err e, w)
  unfolding serve administrator Settings.update_registration Pages.list_users Pages.list_pending
      Admin.get_user Admin.delete_user Admin.update_user Admin.update_status Admin.update_password
      Admin.update_roles Admin.update_whitelist Analytics.traffic Roles.list_roles Roles.create_role
      Roles.delete_role
  refused_request (update_registration payload) w e a h = refused _ _ w e h
  refused_request (list_users query) w e a h = refused _ _ w e h
  refused_request (list_pending query) w e a h = refused _ _ w e h
  refused_request (get_user id) w e a h = refused _ _ w e h
  refused_request (delete_user id) w e a h = refused _ _ w e h
  refused_request (update_user id payload) w e a h = refused _ _ w e h
  refused_request (update_status id payload) w e a h = refused _ _ w e h
  refused_request (update_password id payload) w e a h = refused _ _ w e h
  refused_request (update_roles id payload) w e a h = refused _ _ w e h
  refused_request (update_whitelist id payload) w e a h = refused _ _ w e h
  refused_request (traffic period) w e a h = refused _ _ w e h
  refused_request list_roles w e a h = refused _ _ w e h
  refused_request (create_role payload) w e a h = refused _ _ w e h
  refused_request (delete_role id) w e a h = refused _ _ w e h
  refused_request (register payload) w e a h = cc
  refused_request (login payload) w e a h = cc
  refused_request refresh w e a h = cc
  refused_request logout w e a h = cc
  refused_request validate w e a h = cc
  refused_request (forgot payload) w e a h = cc
  refused_request (reset payload) w e a h = cc
  refused_request (change payload) w e a h = cc
  refused_request get_registration w e a h = cc
  refused_request get_me w e a h = cc
  refused_request (update_me payload) w e a h = cc
  refused_request (resolve_users ids) w e a h = cc

  -- A request of an administrator's route either comes with a valid token of an administrator, or it
  -- is refused with 401 or 403 and leaves the state of the service exactly as it was.
  pub administrators_only :
      (request : Request) (w : World)
      → is_administrative request ≡ true
      → IsAdministrator x state ambient
        ⊎ ((e : AppError) × (serve x state ambient request w ≡ (err e, w))
            × ((status_of e ≡ 401) ⊎ (status_of e ≡ 403)))
  administrators_only request w a = elim (Result-cases admitted) [
    | inl (claims, valid) ↦ inl (claims, valid)
    | inr (e, refusal) ↦ inr (
      e,
      refused_request request w e a refusal,
      portal_admin-status x.jwt state.jwt _ _ _ e refusal,
    )
  ]

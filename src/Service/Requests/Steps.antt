-- ===== src/Service/Requests/Steps.antt =====
-- Each request is a run of the policy's steps.
use ch_api_authenticator.Service.Policy.{here}
use ch_api_authenticator.Service.Policy.{nothing_given, sent}
use ch_api_authenticator.Base.{none}
use ch_api_authenticator.Handlers.Login.Steps.{login-Steps}
use ch_api_authenticator.Handlers.Password.Steps.{change-Steps, reset-Steps}
use ch_api_authenticator.Service.Runs.{Steps-then}
use ch_api_authenticator.Service.Policy.{Given}
use ch_api_authenticator.State.{World}
use ch_api_authenticator.Service.Policy.{Steps}
use ch_api_authenticator.Handlers.Internal.Steps.{resolve_users-Runs}
use ch_api_authenticator.Service.Calls.Stores.{
  registration_enabled-Runs, set_registration_enabled-Runs,
}
use ch_api_authenticator.Handlers.Register.Steps.{register-Runs}
use ch_api_authenticator.Handlers.Session.Steps.{logout-Runs, refresh-Runs}
use ch_api_authenticator.Handlers.Login.Steps.{login-Steps}
use ch_api_authenticator.Handlers.Admin.Pages.Steps.{list_pending-Runs, list_users-Runs}
use ch_api_authenticator.Handlers.Me.Steps.{get_me-Runs, update_me-Runs}
use ch_api_authenticator.Handlers.Admin.Steps.{
  delete_user-Runs, get_user-Runs, update_password-Runs, update_roles-Runs, update_status-Runs,
  update_user-Runs, update_whitelist-Runs,
}
use ch_api_authenticator.Handlers.Roles.Steps.{create_role-Runs, delete_role-Runs, list_roles-Runs}
use ch_api_authenticator.Service.Calls.{count_created_since-Runs}
use ch_api_authenticator.Handlers.Password.Steps.{change-Steps, forgot-Runs, reset-Steps}
use ch_api_authenticator.Handlers.Request.{administrator}
use ch_api_authenticator.Service.Runs.{
  Runs, Runs-bind, Runs-end, Runs-lift, Runs-lift_err, Runs-login_events, Runs-map_err, Runs-pure,
}
use ch_api_authenticator.Exec.{Result}
use ch_api_authenticator.Error.{JsonRejection}
use ch_api_authenticator.Base.{Bool, Option, String}
use ch_api_authenticator.Service.Requests.{
  Answer, Request, accepted_message, answer_with, change, create_role, created_role, delete_role,
  delete_user, done, ended, forgot, get_me, get_registration, get_user, list_pending, list_roles,
  list_users, login, logout, message, no_content, page, profile, refresh, register, registered_id,
  registration, reset, resolve_users, resolved, role_list, serve, session, traffic, traffic_report,
  update_me, update_password, update_registration, update_roles, update_status, update_user,
  update_whitelist, validate, validated,
}
use ch_api_authenticator.State.{Ambient, AppState, Handler, Platform}
use ch_api_authenticator.Handlers.Analytics
use ch_api_authenticator.Handlers.Settings

module _ {x : Platform} {state : AppState} {ambient : Ambient} {given : Given} where
  answer_with-Runs :
      {A : Type 0} (f : A → Answer) {m : Handler A}
      → Runs x state ambient given m
      → Runs x state ambient given (answer_with f m)
  answer_with-Runs f k = Runs-bind k λ a. Runs-pure (f a)

  done-Runs :
      {m : Handler (Unit {0})} → Runs x state ambient given m → Runs x state ambient given (done m)
  done-Runs k = Runs-bind k λ _. Runs-pure no_content

  update_registration-Runs :
      (payload : Result JsonRejection Bool)
      → Runs x state ambient given (Settings.update_registration x state ambient payload)
  unfolding Settings.update_registration administrator
  update_registration-Runs payload = Runs-lift λ claims valid. Runs-lift_err _ λ enabled _.
      Runs-bind (Runs-map_err _ (set_registration_enabled-Runs enabled (claims, valid)))
        λ _. Runs-pure enabled

  get_registration-Runs : Runs x state ambient given (Settings.get_registration x)
  unfolding Settings.get_registration
  get_registration-Runs = Runs-map_err _ registration_enabled-Runs

  -- The aggregation's own run is the server's, on the collection of logins alone.
  traffic-Runs :
      (period : Option String)
      → Runs x state ambient given (Analytics.traffic x state ambient period)
  unfolding Analytics.traffic administrator
  traffic-Runs period = Runs-lift λ _ _.
      Runs-bind (Runs-map_err _ (count_created_since-Runs _))
        λ _. Runs-bind (Runs-map_err _ (Runs-login_events _)) λ _. Runs-pure _

module _ {x : Platform} {state : AppState} {ambient : Ambient} {given : Given} where
  answer_with-Steps :
      {A : Type 0} (f : A → Answer) (m : Handler A) (w : World)
      → Steps x state ambient given w (m w).1
      → Steps x state ambient given w (answer_with f m w).1
  answer_with-Steps f m w before = Steps-then m _ w before λ _ _. here

-- What a request brings besides its token: the password of a login or of a change, and the token of
-- a reset. The state that it finds is the one it is served in.
abbrev pub given_of : Request → World → Given
given_of (login payload) w = record {
  password = sent (λ r. r.password) payload;
  reset_token = none;
  origin = w;
}
given_of (change payload) w = record {
  password = sent (λ r. r.current_password) payload;
  reset_token = none;
  origin = w;
}
given_of (reset payload) w = record {
  password = none;
  reset_token = sent (λ r. r.token) payload;
  origin = w;
}
given_of _ w = nothing_given w

module _ (x : Platform) (state : AppState) (ambient : Ambient) where
  -- Whatever a request asks, and whether it is answered or refused at any point, what it does to
  -- the state of the service is a sequence of writes that the policy allows to it. A password is
  -- written only for an administrator, for the owner of the account who also brings the password
  -- that the state then holds, or for a reset token of the account that the state then holds unused
  -- and unexpired; an address is added only to the account whose password the request brings.
  pub serve-Steps :
      (request : Request) (w : World)
      → Steps x state ambient (given_of request w) w (serve x state ambient request w).1
  unfolding serve
  serve-Steps (register payload) w = (answer_with-Runs registered_id (register-Runs payload)).at w
  serve-Steps (login payload) w = answer_with-Steps session _ w (login-Steps payload w)
  serve-Steps refresh w = (answer_with-Runs session refresh-Runs).at w
  serve-Steps logout w = (answer_with-Runs ended logout-Runs).at w
  serve-Steps validate w = (answer_with-Runs validated (Runs-end _)).at w
  serve-Steps (forgot payload) w = (answer_with-Runs accepted_message (forgot-Runs payload)).at w
  serve-Steps (reset payload) w = answer_with-Steps message _ w (reset-Steps payload w)
  serve-Steps (change payload) w = answer_with-Steps message _ w (change-Steps payload w)
  serve-Steps get_registration w = (answer_with-Runs registration get_registration-Runs).at w
  serve-Steps (update_registration payload) w =
      (answer_with-Runs registration (update_registration-Runs payload)).at w
  serve-Steps get_me w = (answer_with-Runs profile get_me-Runs).at w
  serve-Steps (update_me payload) w = (answer_with-Runs profile (update_me-Runs payload)).at w
  serve-Steps (list_users query) w = (answer_with-Runs page (list_users-Runs query)).at w
  serve-Steps (list_pending query) w = (answer_with-Runs page (list_pending-Runs query)).at w
  serve-Steps (get_user id) w = (answer_with-Runs profile (get_user-Runs id)).at w
  serve-Steps (delete_user id) w = (done-Runs (delete_user-Runs id)).at w
  serve-Steps (update_user id payload) w =
      (answer_with-Runs profile (update_user-Runs id payload)).at w
  serve-Steps (update_status id payload) w =
      (answer_with-Runs profile (update_status-Runs id payload)).at w
  serve-Steps (update_password id payload) w = (done-Runs (update_password-Runs id payload)).at w
  serve-Steps (update_roles id payload) w =
      (answer_with-Runs profile (update_roles-Runs id payload)).at w
  serve-Steps (update_whitelist id payload) w =
      (answer_with-Runs profile (update_whitelist-Runs id payload)).at w
  serve-Steps (traffic period) w = (answer_with-Runs traffic_report (traffic-Runs period)).at w
  serve-Steps list_roles w = (answer_with-Runs role_list list_roles-Runs).at w
  serve-Steps (create_role payload) w =
      (answer_with-Runs created_role (create_role-Runs payload)).at w
  serve-Steps (delete_role id) w = (done-Runs (delete_role-Runs id)).at w
  serve-Steps (resolve_users ids) w = (answer_with-Runs resolved (resolve_users-Runs ids)).at w

-- ===== src/Service/Requests.antt =====
-- The requests of routes.rs, but those of operation, with the handler that serves each.
pub mod Steps
pub mod Guards
use ch_api_authenticator.Handlers.Validate.{ValidateResponse}
use ch_api_authenticator.Handlers.Admin.{UpdateUserRequest, UpdateWhitelistRequest}
use ch_api_authenticator.Handlers.Analytics.{TrafficResponse}
use ch_api_authenticator.Exec.{Result, err, lift, ok, pure, ◌>>=◌, ◌>>◌}
use ch_api_authenticator.Handlers.Internal.{ResolvedUser}
use ch_api_authenticator.Handlers.Register.{RegisterRequest}
use ch_api_authenticator.Handlers.Me.{MeResponse, UpdateMeRequest}
use ch_api_authenticator.Handlers.Login.{LoginRequest}
use ch_api_authenticator.Handlers.Admin.Pages.{ListQuery, UserListResponse}
use ch_api_authenticator.Handlers.Roles.{CreateRoleRequest, RoleResponse}
use ch_api_authenticator.Handlers.Password.{ChangePasswordRequest, ForgotRequest, ResetRequest}
use ch_api_authenticator.Base.{Bool, List, Option, String, ℕ}
use ch_api_authenticator.Error.{AppError, JsonRejection, into_response}
use ch_api_authenticator.State.{Ambient, AppState, Handler, Platform, seconds}
use ch_api_authenticator.Domain.User.{AccountStatus}
use ch_api_authenticator.Handlers.Register
use ch_api_authenticator.Handlers.Login
use ch_api_authenticator.Handlers.Session.{refresh as refresh_session, logout as end_session}
use ch_api_authenticator.Handlers.Session.Create.{Session}
use ch_api_authenticator.Handlers.Validate
use ch_api_authenticator.Handlers.Password
use ch_api_authenticator.Handlers.Settings
use ch_api_authenticator.Handlers.Me
use ch_api_authenticator.Handlers.Admin
use ch_api_authenticator.Handlers.Admin.Pages
use ch_api_authenticator.Handlers.Analytics
use ch_api_authenticator.Handlers.Roles
use ch_api_authenticator.Handlers.Internal

-- A request with what its extractors read: the id of the path, the query, the body.
pub data Request : Type 0 where
  register : Result JsonRejection RegisterRequest → Request
  login : Result JsonRejection LoginRequest → Request
  refresh logout validate : Request
  forgot : Result JsonRejection ForgotRequest → Request
  reset : Result JsonRejection ResetRequest → Request
  change : Result JsonRejection ChangePasswordRequest → Request
  get_registration : Request
  update_registration : Result JsonRejection Bool → Request
  get_me : Request
  update_me : Result JsonRejection UpdateMeRequest → Request
  list_users list_pending : ListQuery → Request
  get_user delete_user : String → Request
  update_user : String → Result JsonRejection UpdateUserRequest → Request
  update_status : String → Result JsonRejection AccountStatus → Request
  update_password : String → Result JsonRejection String → Request
  update_roles : String → Result JsonRejection (List String) → Request
  update_whitelist : String → Result JsonRejection UpdateWhitelistRequest → Request
  traffic : Option String → Request
  list_roles : Request
  create_role : Result JsonRejection CreateRoleRequest → Request
  delete_role : String → Request
  resolve_users : List String → Request

-- What a handler that succeeds answers.
pub data Answer : Type 0 where
  registered_id : String → Answer
  session : Session → Answer
  ended : String × String → Answer
  validated : ValidateResponse → Answer
  accepted_message message : String → Answer
  registration : Bool → Answer
  profile : MeResponse → Answer
  page : UserListResponse → Answer
  traffic_report : TrafficResponse → Answer
  role_list : List RoleResponse → Answer
  created_role : RoleResponse → Answer
  resolved : List ResolvedUser → Answer
  no_content : Answer

abbrev pub answer_with : {A : Type 0} → (A → Answer) → Handler A → Handler Answer
answer_with f m = do a ← m; pure (f a)

abbrev pub done : Handler (Unit {0}) → Handler Answer
done m = do m; pure no_content

module _ (x : Platform) (state : AppState) (ambient : Ambient) where
  unfoldable pub serve : Request → Handler Answer
  serve (register payload) = answer_with registered_id (Register.register x state ambient payload)
  serve (login payload) = answer_with session (Login.login x state ambient payload)
  serve refresh = answer_with session (refresh_session x state ambient)
  serve logout = answer_with ended (end_session x state ambient)
  serve validate =
      answer_with validated
        (lift (Validate.validate x.jwt state.jwt (seconds (ambient.clock 0)) ambient.headers))
  serve (forgot payload) = answer_with accepted_message (Password.forgot x state ambient payload)
  serve (reset payload) = answer_with message (Password.reset x state ambient payload)
  serve (change payload) = answer_with message (Password.change x state ambient payload)
  serve get_registration = answer_with registration (Settings.get_registration x)
  serve (update_registration payload) =
      answer_with registration (Settings.update_registration x state ambient payload)
  serve get_me = answer_with profile (Me.get_me x state ambient)
  serve (update_me payload) = answer_with profile (Me.update_me x state ambient payload)
  serve (list_users query) = answer_with page (Pages.list_users x state ambient query)
  serve (list_pending query) = answer_with page (Pages.list_pending x state ambient query)
  serve (get_user id) = answer_with profile (Admin.get_user x state ambient id)
  serve (delete_user id) = done (Admin.delete_user x state ambient id)
  serve (update_user id payload) =
      answer_with profile (Admin.update_user x state ambient id payload)
  serve (update_status id payload) =
      answer_with profile (Admin.update_status x state ambient id payload)
  serve (update_password id payload) = done (Admin.update_password x state ambient id payload)
  serve (update_roles id payload) =
      answer_with profile (Admin.update_roles x state ambient id payload)
  serve (update_whitelist id payload) =
      answer_with profile (Admin.update_whitelist x state ambient id payload)
  serve (traffic period) = answer_with traffic_report (Analytics.traffic x state ambient period)
  serve list_roles = answer_with role_list (Roles.list_roles x state ambient)
  serve (create_role payload) = answer_with created_role (Roles.create_role x state ambient payload)
  serve (delete_role id) = done (Roles.delete_role x state ambient id)
  serve (resolve_users ids) = answer_with resolved (Internal.resolve_users x state ambient ids)

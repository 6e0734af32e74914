-- ===== src/Handlers/Login/Steps.antt =====
-- The handler of handlers/login.rs as a run of the policy's steps.
use ch_api_authenticator.Error.{internal}
use ch_api_authenticator.Service.Policy.{Steps}
use ch_api_authenticator.Exec.Laws.{relabel-eq-ok}
use ch_api_authenticator.Repository.Users.Calls.{find_by_email-ok}
use ch_api_authenticator.Base.{ap, sym, ◌∙◌}
use ch_api_authenticator.State.{World, enforce_login}
use ch_api_authenticator.Service.Runs.{Steps-lift, Steps-then}
use ch_api_authenticator.Service.Policy.{HasPassword, sent}
use ch_api_authenticator.Service.Policy.{Given}
use ch_api_authenticator.Service.Policy.{edits_addresses}
use ch_api_authenticator.Service.Runs.{Runs-map_err}
use ch_api_authenticator.Service.Runs.{Runs-login_events}
use ch_api_authenticator.Service.Runs.{Runs-raise}
use ch_api_authenticator.Service.Runs.{Runs-enforce_login}
use ch_api_authenticator.Service.Runs.{Runs-attempt}
use ch_api_authenticator.Service.Runs.{Runs-pure}
use ch_api_authenticator.Service.Runs.{Runs-if}
use ch_api_authenticator.Service.Runs.{Runs-bind}
use ch_api_authenticator.Service.Runs.{Runs-lift}
use ch_api_authenticator.Handlers.Login.{token_ip_of}
use ch_api_authenticator.Handlers.Login.{remember_ip}
use ch_api_authenticator.Handlers.Login.{record_event}
use ch_api_authenticator.Service.Calls.{find_by_email-Runs, update-Runs}
use ch_api_authenticator.Handlers.Session.Steps.{create_session-Runs}
use ch_api_authenticator.Handlers.Session.Laws.{client_ip}
use ch_api_authenticator.Repository.Users.{add_allowed_ip}
use ch_api_authenticator.Service.Runs.{Runs}
use ch_api_authenticator.Exec.{Result, ok}
use ch_api_authenticator.Base.{Option, String, arith, none, refl, some, true, ◌≡◌}
use ch_api_authenticator.Domain.User.{ObjectId, User}
use ch_api_authenticator.Handlers.Login.{LoginRequest, authenticate, login}
use ch_api_authenticator.Error.{JsonRejection}
use ch_api_authenticator.State.{Ambient, AppState, Platform}

module _ (x : Platform) (state : AppState) (ambient : Ambient) where
  authenticate-eq-ok :
      (password : String) (found : Option User) (user : User)
      → authenticate x state ambient password found ≡ ok user
      → (found ≡ some user) × (x.crypto.verify_password password user.password_hash ≡ true)
  authenticate-eq-ok password none user e = cc
  authenticate-eq-ok password (some own) user e = ground arith

module _ {x : Platform} {state : AppState} {ambient : Ambient} {given : Given} where
  remember_ip-Runs :
      (user : User) (own : Option ObjectId)
      → ((id : ObjectId) → own ≡ some id → HasPassword x state ambient given id)
      → Runs x state ambient given
          (remember_ip x state ambient (client_ip x state ambient) user own)
  unfolding remember_ip add_allowed_ip
  remember_ip-Runs user none proven = Runs-pure tt
  remember_ip-Runs user (some id) proven = Runs-if _ (Runs-pure tt) (
      Runs-bind (Runs-attempt (update-Runs id _ (edits_addresses _ (proven id refl) refl)))
        λ _. Runs-pure tt)

  token_ip_of-Runs :
      (user : User)
      → ((id : ObjectId) → user.id ≡ some id → HasPassword x state ambient given id)
      → Runs x state ambient given (token_ip_of x state ambient (client_ip x state ambient) user)
  unfolding token_ip_of
  token_ip_of-Runs user proven =
      Runs-if _ (Runs-if _ (Runs-pure _) (Runs-raise _))
        (Runs-bind (remember_ip-Runs user user.id proven) λ _. Runs-pure none)

  record_event-Runs :
      (user : User) (own : Option ObjectId)
      → Runs x state ambient given (record_event x state ambient user own)
  unfolding record_event
  record_event-Runs user none = Runs-pure tt
  record_event-Runs user (some id) =
      Runs-bind (Runs-attempt (Runs-login_events _)) λ _. Runs-pure tt

module _ {x : Platform} {state : AppState} {ambient : Ambient} where
  -- The password of a login is checked against the account that the store holds.
  pub login-Steps :
      (payload : Result JsonRejection LoginRequest) (w : World)
      → Steps x state ambient
          (record { password = sent (λ r. r.password) payload; reset_token = none; origin = w })
          w
          (login x state ambient payload w).1
  unfolding login enforce_login
  login-Steps payload w = Steps-lift _ w λ request reads. Steps-lift _ w λ _ _.
      Steps-then (enforce_login x.governor _ _) _ w ((Runs-enforce_login _ _).at w) λ _ _.
        Steps-then _ _ _ ((Runs-map_err (λ _. internal) (find_by_email-Runs _ request.email)).at _)
          λ found read.
            (Runs-lift λ user authentic. Runs-lift λ _ _.
                let (is_found, verified) =
                  authenticate-eq-ok x state ambient request.password found user authentic in
                Runs-bind
                  (token_ip_of-Runs user λ id is_id. (
                    request.password,
                    user,
                    _,
                    ap (sent (λ r. r.password)) (relabel-eq-ok _ payload reads),
                    sym (find_by_email-ok x.users _ _ w.users found (relabel-eq-ok _ _ read))
                        ∙ is_found,
                    is_id,
                    verified,
                  ))
                  λ token_ip.
                    Runs-bind (record_event-Runs user user.id)
                      λ _. create_session-Runs 2 user token_ip).at
              _

-- ===== src/Handlers/Register/Steps.antt =====
-- The handler of handlers/register.rs as a run of the policy's steps.
use ch_api_authenticator.Service.Policy.{Given}
use ch_api_authenticator.Service.Runs.{Runs-pure}
use ch_api_authenticator.Service.Runs.{Runs-attempt}
use ch_api_authenticator.Service.Runs.{Runs-lift}
use ch_api_authenticator.Service.Runs.{Runs-map_err}
use ch_api_authenticator.Service.Runs.{Runs-bind}
use ch_api_authenticator.Service.Calls.Stores.{registration_enabled-Runs}
use ch_api_authenticator.Exec.Laws.{ok_or-eq-ok}
use ch_api_authenticator.Service.Calls.{insert-Runs}
use ch_api_authenticator.Handlers.Request.Laws.{check-eq-ok}
use ch_api_authenticator.Service.Runs.{Runs, Runs-lift_err}
use ch_api_authenticator.Exec.{Result}
use ch_api_authenticator.Handlers.Register.{RegisterRequest, register}
use ch_api_authenticator.Error.{JsonRejection, internal}
use ch_api_authenticator.State.{Ambient, AppState, Platform}

module _ {x : Platform} {state : AppState} {ambient : Ambient} {given : Given} where
  pub register-Runs :
      (payload : Result JsonRejection RegisterRequest)
      → Runs x state ambient given (register x state ambient payload)
  unfolding register
  register-Runs payload = Runs-lift_err _ λ request _.
      Runs-bind (Runs-map_err _ registration_enabled-Runs) λ _. Runs-lift λ _ _.
        Runs-lift λ _ checks. Runs-lift λ _ _. Runs-lift λ _ _. Runs-lift λ hash hashed.
          Runs-bind
            (Runs-attempt (
              insert-Runs request hash (check-eq-ok x.iterate _ checks)
                (ok_or-eq-ok _ internal hashed)))
            λ _. Runs-lift λ _ _. Runs-pure _

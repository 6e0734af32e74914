-- ===== src/Handlers/Me/Steps.antt =====
-- The handlers of handlers/me.rs as runs of the policy's steps.
use ch_api_authenticator.Service.Policy.{Given}
use ch_api_authenticator.Handlers.Request.{signed_in}
use ch_api_authenticator.Exec.Laws.{ok_or-eq-ok}
use ch_api_authenticator.Service.Calls.{find_by_id-Runs, update_email-Runs}
use ch_api_authenticator.Service.Policy.{edits_email}
use ch_api_authenticator.Handlers.Me.{UpdateMeRequest, get_me, load_user, parse_user_id, update_me}
use ch_api_authenticator.Base.{String, inr, refl}
use ch_api_authenticator.Service.Runs.{
  Runs, Runs-attempt, Runs-bind, Runs-end, Runs-lift, Runs-lift_err, Runs-map_err, Runs-pure,
}
use ch_api_authenticator.Exec.{Result}
use ch_api_authenticator.Error.{JsonRejection, invalid_token}
use ch_api_authenticator.State.{Ambient, AppState, Platform}

module _ {x : Platform} {state : AppState} {ambient : Ambient} {given : Given} where
  load_user-Runs : (sub : String) → Runs x state ambient given (load_user x sub)
  unfolding load_user
  load_user-Runs sub =
      Runs-lift λ id _. Runs-bind (Runs-map_err _ (find_by_id-Runs id)) λ found. Runs-end _

  pub get_me-Runs : Runs x state ambient given (get_me x state ambient)
  unfolding get_me signed_in
  get_me-Runs = Runs-lift λ claims _. Runs-bind (load_user-Runs claims.sub) λ _. Runs-pure _

  pub update_me-Runs :
      (payload : Result JsonRejection UpdateMeRequest)
      → Runs x state ambient given (update_me x state ambient payload)
  unfolding update_me signed_in parse_user_id
  update_me-Runs payload = Runs-lift λ claims valid. Runs-lift_err _ λ request _. Runs-lift λ _ _.
      Runs-lift λ id parsed.
        Runs-bind
          (Runs-attempt (
            update_email-Runs _ id _ (
              edits_email _ request.email (inr (claims, valid, ok_or-eq-ok _ invalid_token parsed))
                refl)))
          λ _. Runs-lift λ _ _. Runs-bind (load_user-Runs claims.sub) λ _. Runs-pure _

-- ===== src/Handlers/Internal/Steps.antt =====
-- The internal route, which writes nothing.
use ch_api_authenticator.Service.Policy.{Given}
use ch_api_authenticator.Handlers.Internal.{lookup}
use ch_api_authenticator.Base.Lists.{take}
use ch_api_authenticator.Handlers.Internal.{max_resolved, resolve_all, resolve_users}
use ch_api_authenticator.Service.Calls.{find_by_id-Runs}
use ch_api_authenticator.Service.Runs.{Runs, Runs-bind, Runs-lift, Runs-map_err, Runs-pure}
use ch_api_authenticator.Domain.User.{ObjectId}
use ch_api_authenticator.Base.{List, Option, String, [], none, some, ◌∷◌}
use ch_api_authenticator.State.{Ambient, AppState, Platform}

module _ {x : Platform} {state : AppState} {ambient : Ambient} {given : Given} where
  lookup-Runs : (oid : Option ObjectId) → Runs x state ambient given (lookup x oid)
  lookup-Runs none = Runs-pure none
  lookup-Runs (some oid) = Runs-map_err _ (find_by_id-Runs oid)

  resolve_all-Runs : (ids : List String) → Runs x state ambient given (resolve_all x ids)
  unfolding resolve_all
  resolve_all-Runs [] = Runs-pure []
  resolve_all-Runs (id ∷ ids) =
      Runs-bind (lookup-Runs (x.parse_str id))
        λ _. Runs-bind (resolve_all-Runs ids) λ _. Runs-pure _

  pub resolve_users-Runs :
      (ids : List String) → Runs x state ambient given (resolve_users x state ambient ids)
  unfolding resolve_users
  resolve_users-Runs ids = Runs-lift λ _ _. resolve_all-Runs (take max_resolved ids)

-- ===== src/Handlers/Admin/Pages/Steps.antt =====
-- The pages of accounts, which write nothing to them.
use ch_api_authenticator.Service.Policy.{Given}
use ch_api_authenticator.Service.Calls.{list-Runs}
use ch_api_authenticator.Handlers.Request.{administrator}
use ch_api_authenticator.Service.Runs.{Runs, Runs-bind, Runs-lift, Runs-map_err, Runs-pure}
use ch_api_authenticator.Base.{Option, String, none}
use ch_api_authenticator.Handlers.Admin.Pages.{
  ListQuery, Pagination, list_pending, list_users, paginated_users,
}
use ch_api_authenticator.State.{Ambient, AppState, Platform}
use ch_api_authenticator.Domain.User.{AccountStatus}

module _ {x : Platform} {state : AppState} {ambient : Ambient} {given : Given} where
  paginated_users-Runs :
      (pagination : Pagination) (email : Option String) (status : Option AccountStatus)
      → Runs x state ambient given (paginated_users x pagination email status)
  unfolding paginated_users
  paginated_users-Runs pagination email status =
      Runs-bind (Runs-map_err _ (list-Runs _ _ _ email status)) λ _. Runs-pure _

  pub list_users-Runs :
      (query : ListQuery) → Runs x state ambient given (list_users x state ambient query)
  unfolding list_users administrator
  list_users-Runs query =
      Runs-lift λ _ _. Runs-lift λ status _. paginated_users-Runs _ query.email status

  pub list_pending-Runs :
      (query : ListQuery) → Runs x state ambient given (list_pending x state ambient query)
  unfolding list_pending administrator
  list_pending-Runs query = Runs-lift λ _ _. paginated_users-Runs _ none _

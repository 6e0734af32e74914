-- ===== src/Examples/Pages.antt =====
-- A page of the active accounts, as an administrator asks for it.
use ch_api_authenticator.Exec.{◌>>=◌}
use ch_api_authenticator.Repository.Users.{list}
use ch_api_authenticator.Services.Jwt.{validate}
use ch_api_authenticator.Base.Text.{trim, strip_prefix}
use ch_api_authenticator.Domain.RolesFormat.{deserialize_roles, distinct_roles, collected}
use ch_api_authenticator.Domain.User.{normalize_email}
use ch_api_authenticator.Handlers.Request.{administrator}
use ch_api_authenticator.Middleware.Auth.{portal_admin, extract_token, token_from_bearer}
use ch_api_authenticator.Handlers.Admin.Pages.{list_users, parse_status, paginated_users, paginate}
use ch_api_authenticator.Handlers.Admin.Pages.{wanted_status}
use ch_api_authenticator.Handlers.Me.{profile}
use ch_api_authenticator.Base.Integers.{pos}
use ch_api_authenticator.Exec.{ok}
use ch_api_authenticator.Examples.Scenario.{ambient, jane, platform, state, world}
use ch_api_authenticator.Base.{Option, [], none, refl, some, ◌∷◌, ◌≡◌}
use ch_api_authenticator.Handlers.Admin.Pages.{ListQuery, UserListResponse}
use ch_api_authenticator.Handlers.Admin.Pages.Listing.{IsListing, list_users-IsListing}
use ch_api_authenticator.Handlers.Admin.Pages.Laws.{IsLimit, IsPage}
use ch_api_authenticator.Handlers.Admin.Laws.{IsAdministrator}
use ch_api_authenticator.Domain.User.{AccountStatus}

abbrev query : ListQuery
query = record {
  page = none;
  limit = some (pos 500);
  email = some " jane@x ";
  status = some "active";
}

abbrev answer : UserListResponse
answer = record { users = profile platform jane ∷ []; page = 1; limit = 100; total = 1 }

list_users-IsListing_example :
    IsAdministrator platform state ambient
    × (status : Option AccountStatus) × (wanted_status query.status ≡ ok status)
    × IsListing platform query.email status answer.limit answer.users
    × IsLimit query.limit answer.limit
    × IsPage query.page answer.page
unfolding list_users ◌>>=◌ administrator portal_admin extract_token token_from_bearer strip_prefix
    trim validate deserialize_roles distinct_roles collected parse_status paginated_users list
    paginate normalize_email
list_users-IsListing_example = list_users-IsListing platform state ambient query world answer refl

-- ===== src/Handlers/Admin/Pages.antt =====
-- The pages of accounts of handlers/admin.rs. The numbers of a query are machine integers: the page
-- a u64, the limit an i64.
pub mod Laws
pub mod Steps
pub mod Listing
use ch_api_authenticator.Exec.{◌>>=◌, ◌>>◌}
use ch_api_authenticator.Repository.Dates.{wrap64}
use ch_api_authenticator.Base.Integers.{negsuc, pos, ℤ}
use ch_api_authenticator.Repository.Users.{list}
use ch_api_authenticator.Handlers.Request.{administrator}
use ch_api_authenticator.Exec.{Result, err, lift, ok, pure}
use ch_api_authenticator.Handlers.Me.{MeResponse, profile}
use ch_api_authenticator.Base.{
  List, Option, String, if◌then◌else◌, ltb, map, none, some, ℕ, ◌*◌, ◌++◌, ◌-◌, ◌==◌, ◌||◌,
}
use ch_api_authenticator.Error.{AppError, validation}
use ch_api_authenticator.State.{Ambient, AppState, Handler, Platform, in_users, or_internal}
use ch_api_authenticator.Domain.User.{AccountStatus, active, disabled, pending_validation}

abbrev pub default_limit : ℤ
default_limit = pos 20

abbrev pub max_limit : ℕ
max_limit = 100

pub record ListQuery : Type 0 where
  pub page : Option ℕ
  pub limit : Option ℤ
  pub email : Option String
  pub status : Option String

pub record UserListResponse : Type 0 where
  pub users : List MeResponse
  pub page : ℕ
  pub limit : ℕ
  pub total : ℕ

pub record Pagination : Type 0 where
  pub page : ℕ
  pub limit : ℕ
  pub skip : ℕ

-- `n.clamp(1, MAX_LIMIT)`
abbrev pub clamp_limit : ℤ → ℕ
clamp_limit (pos n) = if ltb n 1 then 1 else if ltb max_limit n then max_limit else n
clamp_limit (negsuc n) = 1

-- `page.unwrap_or(1).max(1)`
abbrev pub page_of : Option ℕ → ℕ
page_of none = 1
page_of (some page) = if ltb page 1 then 1 else page

abbrev limit_of : Option ℤ → ℕ
limit_of none = clamp_limit default_limit
limit_of (some limit) = clamp_limit limit

-- The product wraps, as it does where overflow is not checked.
unfoldable pub paginate : Option ℕ → Option ℤ → Pagination
paginate page limit = record {
  page = page_of page;
  limit = limit_of limit;
  skip = wrap64 ((page_of page - 1) * limit_of limit);
}

unfoldable pub parse_status : String → Result AppError AccountStatus
parse_status raw =
    if raw == "active"
    then ok active
    else if raw == "disabled"
    then ok disabled
    else if raw == "pending_validation" || raw == "pending"
    then ok pending_validation
    else err (validation ("statut inconnu : " ++ raw))

-- `query.status.as_deref().map(parse_status).transpose()`
abbrev pub wanted_status : Option String → Result AppError (Option AccountStatus)
wanted_status none = ok none
wanted_status (some raw) = elim (parse_status raw) [ ok status ↦ ok (some status) | err e ↦ err e ]

unfoldable pub paginated_users :
    Platform → Pagination → Option String → Option AccountStatus → Handler UserListResponse
paginated_users x pagination email status = do
  found ←
      or_internal (
        in_users
          (list x.users x.unicode.to_lowercase pagination.skip pagination.limit email status))
  pure (record {
    users = map (profile x) found.0;
    page = pagination.page;
    limit = pagination.limit;
    total = found.1;
  })

module _ (x : Platform) (state : AppState) (ambient : Ambient) where
  unfoldable pub list_users : ListQuery → Handler UserListResponse
  list_users query = do
    administrator x state ambient
    status ← lift (wanted_status query.status)
    paginated_users x (paginate query.page query.limit) query.email status

  unfoldable pub list_pending : ListQuery → Handler UserListResponse
  list_pending query = do
    administrator x state ambient
    paginated_users x (paginate query.page query.limit) none (some pending_validation)

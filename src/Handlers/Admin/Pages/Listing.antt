-- ===== src/Handlers/Admin/Pages/Listing.antt =====
-- Which accounts an administrator's page lists.
use ch_api_authenticator.Domain.User.{disabled}
use ch_api_authenticator.Repository.Users.{is_status, matches_email, matches_status}
use ch_api_authenticator.Handlers.Admin.Pages.{wanted_status}
use ch_api_authenticator.Handlers.Admin.Pages.{profile}
use ch_api_authenticator.Exec.{ok}
use ch_api_authenticator.Repository.Users.{loaded}
use ch_api_authenticator.Repository.Users.Calls.{list-ok}
use ch_api_authenticator.Exec.Laws.{invert_run, ok_injective, relabel-eq-ok}
use ch_api_authenticator.Handlers.Request.{administrator}
use ch_api_authenticator.Handlers.Me.{MeResponse}
use ch_api_authenticator.Handlers.Admin.Pages.{
  ListQuery, Pagination, UserListResponse, list_users, paginate, paginated_users,
}
use ch_api_authenticator.Base.{
  List, Option, String, [], and_elim, ap, arith, eq_iff, inl, inr, map, none, refl, some, subst,
  sym, true, ℕ, ◌&&◌, ◌∷◌, ◌≡◌, ◌≤◌,
}
use ch_api_authenticator.Handlers.Admin.Pages.Laws.{
  IsLimit, IsPage, limit_of-IsLimit, limit_of_ge, page_of-IsPage,
}
use ch_api_authenticator.Handlers.Admin.Laws.{IsAdministrator}
use ch_api_authenticator.State.{Ambient, AppState, Platform, World}
use ch_api_authenticator.Base.Lists.{All, length}
use ch_api_authenticator.Domain.User.{
  AccountStatus, User, active, normalize_email, pending_validation,
}

status_of_match :
    (wanted : AccountStatus) (user : User)
    → matches_status (some wanted) user ≡ true
    → user.status ≡ wanted
status_of_match wanted user h = by_cases wanted user.status h
  where
    by_cases : (asked own : AccountStatus) → is_status own asked ≡ true → own ≡ asked
    by_cases active active e = refl
    by_cases active disabled e = cc
    by_cases active pending_validation e = cc
    by_cases disabled active e = cc
    by_cases disabled disabled e = refl
    by_cases disabled pending_validation e = cc
    by_cases pending_validation active e = cc
    by_cases pending_validation disabled e = cc
    by_cases pending_validation pending_validation e = refl

module _ (x : Platform) where
  -- The account has the email and the status that are asked for, where any are.
  abbrev pub HasEmail : Option String → User → Type 0
  HasEmail none user = Unit {0}
  HasEmail (some email) user = user.email ≡ normalize_email x.unicode.to_lowercase email

  abbrev pub HasStatus : Option AccountStatus → User → Type 0
  HasStatus none user = Unit {0}
  HasStatus (some status) user = user.status ≡ status

  pub record IsListing (email : Option String) (status : Option AccountStatus) (limit : ℕ)
      (users : List MeResponse) : Type 0 where
    pub stored : List User
    pub shown : users ≡ map (profile x) (map loaded stored)
    pub asked : All (λ user. HasEmail email user × HasStatus status user) stored
    pub few : length stored ≤ limit

  email_of_match :
      (email : Option String) (user : User)
      → matches_email x.unicode.to_lowercase email user ≡ true
      → HasEmail email user
  email_of_match none user h = tt
  email_of_match (some email) user h = (eq_iff _ _).0 h

  wanted_of_match :
      (status : Option AccountStatus) (user : User)
      → matches_status status user ≡ true
      → HasStatus status user
  wanted_of_match none user h = tt
  wanted_of_match (some status) user h = status_of_match status user h

  asked_of_matches :
      (email : Option String) (status : Option AccountStatus) (stored : List User)
      → All
          (λ u. matches_email x.unicode.to_lowercase email u && matches_status status u ≡ true)
          stored
      → All (λ user. HasEmail email user × HasStatus status user) stored
  asked_of_matches email status [] h = tt
  asked_of_matches email status (user ∷ stored) h =
      let (same_email, same_status) = and_elim _ _ h.0 in
      (
        (email_of_match email user same_email, wanted_of_match status user same_status),
        asked_of_matches email status stored h.1,
      )

  paginated_users-IsListing :
      (pagination : Pagination) (email : Option String) (status : Option AccountStatus) (w : World)
      (answer : UserListResponse)
      → 1 ≤ pagination.limit
      → (paginated_users x pagination email status w).0 ≡ ok answer
      → IsListing email status answer.limit answer.users
        × (answer.limit ≡ pagination.limit)
        × (answer.page ≡ pagination.page)
  unfolding paginated_users
  paginated_users-IsListing pagination email status w answer some_room e =
      invert_run _ _ _ e λ found read r₁ e₁.
        let same = ok_injective _ _ _ refl e₁ in
        let (stored, is_loaded, all_match, bound) =
          list-ok x.users x.unicode.to_lowercase pagination.skip pagination.limit email status
            w.users found (relabel-eq-ok _ _ read) in
        subst
          (λ a.
            IsListing email status a.limit a.users
            × (a.limit ≡ pagination.limit)
            × (a.page ≡ pagination.page))
          same
          (
            record {
              stored = stored;
              shown = ap (map (profile x)) is_loaded;
              asked = asked_of_matches email status stored all_match;
              few = elim bound [ inl unlimited ↦ absurd (ground arith) | inr few ↦ few ];
            },
            refl,
            refl,
          )

module _ (x : Platform) (state : AppState) (ambient : Ambient) where
  -- A page of accounts is listed only for an administrator, and the status that is asked for is one
  -- of the known ones. It lists no more accounts than its limit, which is twenty where none is
  -- asked for and from one to a hundred otherwise, each of the email and the status that are asked
  -- for, and it bears the number that is asked for, or one.
  pub list_users-IsListing :
      (query : ListQuery) (w : World) (answer : UserListResponse)
      → (list_users x state ambient query w).0 ≡ ok answer
      → IsAdministrator x state ambient
        × (status : Option AccountStatus) × (wanted_status query.status ≡ ok status)
        × IsListing x query.email status answer.limit answer.users
        × IsLimit query.limit answer.limit
        × IsPage query.page answer.page
  unfolding list_users administrator paginate
  list_users-IsListing query w answer e = invert_run _ _ _ e λ claims valid r₁ e₁.
      invert_run _ _ _ e₁ λ status known r₂ e₂.
        let (listing, limit, page) =
          paginated_users-IsListing x _ query.email status w answer (limit_of_ge query.limit) e₂ in
        (
          (claims, valid),
          status,
          known,
          listing,
          subst (IsLimit query.limit) (sym limit) (limit_of-IsLimit query.limit),
          subst (IsPage query.page) (sym page) (page_of-IsPage query.page),
        )

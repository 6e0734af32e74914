-- ===== src/Service/Policy.antt =====
-- What one request may write to the state of the service: a policy that names no handler. It says
-- which rights each change needs, and what was checked of the values that are written. The rights
-- rest on what the request brings and on the state that it finds.
use ch_api_authenticator.Base.{◌<◌, ◌==◌}
use ch_api_authenticator.Repository.ResetTokens.{identify, is_usable, same_hash}
use ch_api_authenticator.Exec.{Result, err}
use ch_api_authenticator.Error.{JsonRejection}
use ch_api_authenticator.Repository.Users.{loaded}
use mathlib.Core.List.{◌++◌}
use ch_api_authenticator.Repository.Roles.{same_role}
use ch_api_authenticator.Repository.Users.{
  same_account, with_allowed_ip, with_email, with_name, with_password, with_roles, with_status,
  with_whitelist,
}
use ch_api_authenticator.Repository.ResetTokens.Calls.{replacement}
use ch_api_authenticator.Exec.{ok}
use ch_api_authenticator.Mongo.Docs.{modify_all, modify_first, remove_all, remove_first}
use ch_api_authenticator.Base.Text.{is_empty}
use ch_api_authenticator.Repository.RefreshTokens.Calls.{created}
use ch_api_authenticator.Mongo.Unique.{conflict_free}
use ch_api_authenticator.Handlers.Session.Laws.{client_ip}
use ch_api_authenticator.Handlers.Password.{strength_errors}
use ch_api_authenticator.Middleware.Auth.{auth_user}
use ch_api_authenticator.Base.Lists.{any, find, is_nil}
use ch_api_authenticator.Domain.Events.{UserDeletedEvent}
use ch_api_authenticator.Mongo.{Store}
use ch_api_authenticator.Repository.ResetTokens.{ResetToken, use_up}
use ch_api_authenticator.Handlers.Register.{RegisterRequest, register_errors, registered}
use ch_api_authenticator.Repository.RefreshTokens.{RefreshToken, revoke}
use ch_api_authenticator.Services.RateLimit.{RateLimitPolicy}
use ch_api_authenticator.Domain.Role.{Portal, Role, is_portal_role, sub_role}
use ch_api_authenticator.Repository.LoginEvents.{LoginEvent}
use ch_api_authenticator.Handlers.Admin.Laws.{IsAdministrator}
use ch_api_authenticator.Repository.Settings.{GlobalSettings}
use ch_api_authenticator.Services.Jwt.{Claims}
use ch_api_authenticator.Base.{Bool, List, String, [], false, some, true, ℕ, ◌&&◌, ◌∷◌, ◌≡◌, ◌⊎◌}
use ch_api_authenticator.State.{Ambient, AppState, Email, Platform, World, seconds}
use ch_api_authenticator.Domain.User.{AccountStatus, DateTime, ObjectId, User, normalize_email}
use mathlib.Core.Option
use ch_api_authenticator.Base.{Option, none}
use ch_api_authenticator.Repository.Users
use ch_api_authenticator.Repository.Roles
use ch_api_authenticator.Repository.ResetTokens
use ch_api_authenticator.Repository.RefreshTokens

module _ (x : Platform) (state : AppState) (ambient : Ambient) where
  -- The request comes with a valid access token of the account.
  abbrev pub IsOwner : ObjectId → Type 0
  IsOwner id =
      (claims : Claims) × (auth_user x.jwt state.jwt state.settings.config.token.cookie_name
          (seconds (ambient.clock 0)) ambient.headers
        ≡ ok claims)
      × (x.parse_str claims.sub ≡ some id)

  pub data RolesWrite (before after : List Role) : Type 0 where
    keeps : after ≡ before → RolesWrite before after
    creates :
        (now : DateTime) (name : String) (p : Portal) (id : ObjectId)
        → IsAdministrator x state ambient
        → any (Roles.same_role (Roles.identify id (sub_role now name p))) before ≡ false
        → after ≡ before ++ Roles.identify id (sub_role now name p) ∷ []
        → RolesWrite before after
    deletes :
        (id : ObjectId) (role : Role)
        → IsAdministrator x state ambient
        → find (Roles.has_id id) before ≡ some role
        → is_portal_role role ≡ false
        → after ≡ remove_first (Roles.has_id id) before
        → RolesWrite before after

  pub data ResetTokensWrite (before after : List ResetToken) : Type 0 where
    keeps : after ≡ before → ResetTokensWrite before after
    clears : (p : ResetToken → Bool) → after ≡ remove_all p before → ResetTokensWrite before after
    offers :
        (now : DateTime) (user_id : ObjectId) (ttl : ℕ)
        → any
            (ResetTokens.same_hash
              (replacement now user_id (x.crypto.hash_token ambient.token) ttl))
            before
          ≡ false
        → after ≡ before ++ replacement now user_id (x.crypto.hash_token ambient.token) ttl ∷ []
        → ResetTokensWrite before after
    uses :
        (now : DateTime) (h : String)
        → after ≡ modify_first (ResetTokens.is_usable h now) use_up before
        → ResetTokensWrite before after

  pub data RefreshTokensWrite (before after : List RefreshToken) : Type 0 where
    keeps : after ≡ before → RefreshTokensWrite before after
    opens :
        (now : DateTime) (user_id family_id : ObjectId) (ttl : ℕ)
        → any
            (RefreshTokens.same_hash
              (created now user_id family_id (x.crypto.hash_token ambient.token) ttl))
            before
          ≡ false
        → after
          ≡ before ++ created now user_id family_id (x.crypto.hash_token ambient.token) ttl ∷ []
        → RefreshTokensWrite before after
    consumes :
        (now : DateTime) (h : String)
        → after ≡ modify_first (RefreshTokens.is_usable h now) revoke before
        → RefreshTokensWrite before after
    revokes :
        (p : RefreshToken → Bool)
        → after ≡ modify_all p revoke before
        → RefreshTokensWrite before after

-- What a request brings besides its token, and the state that it finds.
pub record Given : Type 0 where
  pub password : Option String
  pub reset_token : Option String
  pub origin : World

-- The field of a payload that was read.
abbrev pub sent : {A : Type 0} → (A → String) → Result JsonRejection A → Option String
sent field (ok request) = some (field request)
sent field (err rejection) = none

-- A request that brings neither.
abbrev pub nothing_given : World → Given
nothing_given w = record { password = none; reset_token = none; origin = w }

module _ (x : Platform) (state : AppState) (ambient : Ambient) (given : Given) where
  -- The request brings the text of a reset token of the account that the state it finds holds, and
  -- that is neither used nor expired.
  abbrev pub HasResetToken : ObjectId → Type 0
  HasResetToken id =
      (token : String) × (stored : ResetToken) × (test : ResetToken → Bool) × (given.reset_token
        ≡ some token)
      × (find test given.origin.reset_tokens.docs ≡ some stored)
      × (stored.token_hash == x.crypto.hash_token token ≡ true)
      × (stored.used ≡ false)
      × (ambient.clock 0 < stored.expires_at)
      × (stored.user_id ≡ id)

  -- The request brings the password of the account of that id that the state it finds holds.
  abbrev pub HasPassword : ObjectId → Type 0
  HasPassword id =
      (password : String) × (user : User) × (test : User → Bool) × (given.password ≡ some password)
      × (Option.map Users.loaded (find test given.origin.users.docs) ≡ some user)
      × (user.id ≡ some id)
      × (x.crypto.verify_password password user.password_hash ≡ true)

  pub data MaySetPassword (id : ObjectId) : Type 0 where
    administrator_sets : IsAdministrator x state ambient → MaySetPassword id
    owner_sets : IsOwner x state ambient id → HasPassword id → MaySetPassword id
    token_sets : HasResetToken id → MaySetPassword id

  -- A change of the account of an id.
  pub data Edit (id : ObjectId) (change : User → User) : Type 0 where
    edits_roles :
        (now : DateTime) (roles : List String)
        → IsAdministrator x state ambient
        → change ≡ with_roles now roles
        → Edit id change
    edits_whitelist :
        (now : DateTime) (whitelist_only : Bool) (allowed_ips : List String)
        → IsAdministrator x state ambient
        → whitelist_only && is_nil allowed_ips ≡ false
        → change ≡ with_whitelist now whitelist_only allowed_ips
        → Edit id change
    edits_status :
        (now : DateTime) (status : AccountStatus)
        → IsAdministrator x state ambient
        → change ≡ with_status now status
        → Edit id change
    edits_name :
        (now : DateTime) (name : String)
        → IsAdministrator x state ambient
        → is_empty name ≡ false
        → change ≡ with_name now name
        → Edit id change
    edits_email :
        (now : DateTime) (email : String)
        → IsAdministrator x state ambient ⊎ IsOwner x state ambient id
        → change ≡ with_email now (normalize_email x.unicode.to_lowercase email)
        → Edit id change
    edits_addresses :
        (now : DateTime)
        → HasPassword id
        → change ≡ with_allowed_ip now (x.net.show_ip (client_ip x state ambient))
        → Edit id change
    edits_password :
        (now : DateTime) (password hash : String)
        → MaySetPassword id
        → strength_errors x password ≡ []
        → x.crypto.hash_password ambient.salt password ≡ some hash
        → change ≡ with_password now hash
        → Edit id change

  pub data AccountsWrite (before after : List User) : Type 0 where
    keeps : after ≡ before → AccountsWrite before after
    registers :
        (request : RegisterRequest) (hash : String) (id : ObjectId)
        → register_errors x state ambient request ≡ []
        → x.crypto.hash_password ambient.salt request.password ≡ some hash
        → any
            (Users.same_account (Users.identify id (registered x state ambient request hash)))
            before
          ≡ false
        → after ≡ before ++ Users.identify id (registered x state ambient request hash) ∷ []
        → AccountsWrite before after
    edits :
        (id : ObjectId) (change : User → User)
        → Edit id change
        → (conflict_free Users.same_account before ≡ true
            → conflict_free Users.same_account after ≡ true)
        → after ≡ modify_first (Users.has_id id) change before
        → AccountsWrite before after
    deletes :
        (id : ObjectId)
        → IsAdministrator x state ambient
        → after ≡ remove_first (Users.has_id id) before
        → AccountsWrite before after

  -- One write of a request to the state.
  pub data Step : World → World → Type 0 where
    accounts :
        (w : World) (s : Store User)
        → AccountsWrite w.users.docs s.docs
        → Step w (record w { users = s })
    roles :
        (w : World) (s : Store Role)
        → RolesWrite x state ambient w.roles.docs s.docs
        → Step w (record w { roles = s })
    settings :
        (w : World) (s : Store GlobalSettings)
        → (s.docs ≡ w.settings.docs) ⊎ IsAdministrator x state ambient
        → Step w (record w { settings = s })
    login_events : (w : World) (s : Store LoginEvent) → Step w (record w { login_events = s })
    reset_tokens :
        (w : World) (s : Store ResetToken)
        → ResetTokensWrite x state ambient w.reset_tokens.docs s.docs
        → Step w (record w { reset_tokens = s })
    refresh_tokens :
        (w : World) (s : Store RefreshToken)
        → RefreshTokensWrite x state ambient w.refresh_tokens.docs s.docs
        → Step w (record w { refresh_tokens = s })
    limits :
        (w : World) (login forgot refresh : RateLimitPolicy)
        → Step w
            (record w { login_limiter = login; forgot_limiter = forgot; refresh_limiter = refresh })
    mails : (w : World) (email : Email) → Step w (record w { emails = email ∷ w.emails })
    publishes :
        (w : World) (event : UserDeletedEvent)
        → IsAdministrator x state ambient
        → Step w (record w { published = event ∷ w.published })

  pub data Steps (w : World) : World → Type 0 where
    here : Steps w w
    next : {v u : World} → Steps w v → Step v u → Steps w u

  pub Steps-append : {u v w : World} → Steps u v → Steps v w → Steps u w
  Steps-append before here = before
  Steps-append before (next after step) = next (Steps-append before after) step

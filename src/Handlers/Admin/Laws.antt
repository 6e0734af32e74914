-- ===== src/Handlers/Admin/Laws.antt =====
-- What an administrator's changes of accounts rest on, and what they write.
use ch_api_authenticator.Handlers.Admin.{ips_error}
use ch_api_authenticator.Services.Whitelist.{validate_entries}
use ch_api_authenticator.Repository.Users.{update, with_whitelist}
use ch_api_authenticator.Mongo.Docs.{remove_first}
use ch_api_authenticator.Base.Lists.{is_nil}
use ch_api_authenticator.Exec.Laws.{guard-eq-ok}
use ch_api_authenticator.Validation.{field_error}
use ch_api_authenticator.Base.{false, if◌then◌else◌, not, subst, sym, ◌&&◌, ◌≢◌, ◌⊎◌}
use ch_api_authenticator.Exec.{err, guard, lift}
use ch_api_authenticator.Repository.Users.Calls.{delete-ok}
use ch_api_authenticator.Handlers.Password.{change}
use ch_api_authenticator.Domain.Events.{UserDeletedEvent, new}
use ch_api_authenticator.Domain.User.{User}
use ch_api_authenticator.Handlers.Admin.{
  UpdateWhitelistRequest, delete_user, unknown_user, update_whitelist, validate_allowed_ips,
}
use ch_api_authenticator.Mongo.{Store}
use ch_api_authenticator.State.{Handler, in_users, or_internal, publish_user_deleted}
use ch_api_authenticator.Base.Text.{trim}
use ch_api_authenticator.Middleware.Auth.{portal_admin}
use ch_api_authenticator.Mongo.Docs.{modify_first}
use ch_api_authenticator.Handlers.Admin.{
  load_profile, parse_target_id, require_catalogue, update_roles,
}
use ch_api_authenticator.Exec.Laws.{invert_run, ok_or-eq-ok, relabel-eq-ok}
use ch_api_authenticator.Repository.Roles.{has_name}
use ch_api_authenticator.Repository.Users.{has_id}
use ch_api_authenticator.Repository.Users.Calls.{find_by_id-docs, update-ok}
use ch_api_authenticator.Repository.Roles.Calls.{exists-ok}
use ch_api_authenticator.Base.Lists.{all, any}
use ch_api_authenticator.Handlers.Request.{administrator}
use ch_api_authenticator.Handlers.Request.Laws.{accepted-eq-ok}
use ch_api_authenticator.Repository.Users.{Users, with_roles}
use ch_api_authenticator.Domain.Role.{Role}
use ch_api_authenticator.Exec.{Result, ok, ◌>>◌}
use ch_api_authenticator.Domain.User.{ObjectId}
use ch_api_authenticator.Handlers.Me.{MeResponse}
use ch_api_authenticator.Error.{JsonRejection}
use ch_api_authenticator.Services.Jwt.{Claims}
use ch_api_authenticator.Base.{Bool, List, String, [], ap, arith, refl, some, true, ◌∙◌, ◌∷◌, ◌≡◌}
use ch_api_authenticator.State.{Ambient, AppState, Platform, World, seconds}
use ch_api_authenticator.Repository.Users
use ch_api_authenticator.Exec.{◌>>=◌}

module _ (x : Platform) (state : AppState) (ambient : Ambient) where
  -- The request comes with a valid token of an administrator.
  abbrev pub IsAdministrator : Type 0
  IsAdministrator =
      (claims : Claims) × (portal_admin x.jwt state.jwt state.settings.config.token.cookie_name
          (seconds (ambient.clock 0)) ambient.headers
        ≡ ok claims)

  abbrev pub in_catalogue : List Role → String → Bool
  in_catalogue docs role = any (has_name (trim role)) docs

  and_intro : (a b : Bool) → a ≡ true → b ≡ true → a && b ≡ true
  and_intro a b h k = ground arith

  require_catalogue-ok :
      (roles : List String) (w : World)
      → (require_catalogue x roles w).0 ≡ ok tt
      → (all (in_catalogue w.roles.docs) roles ≡ true)
        × ((require_catalogue x roles w).1.users ≡ w.users)
  unfolding require_catalogue
  require_catalogue-ok [] w e = (refl, refl)
  require_catalogue-ok (role ∷ roles) w e = invert_run _ _ _ e λ found read r₁ e₁.
      invert_run _ _ _ e₁ λ _ present r₂ e₂.
        let (is_found, kept) = exists-ok x.roles role w.roles found (relabel-eq-ok _ _ read) in
        let (rest, users) = require_catalogue-ok roles _ e₂ in
        (
          and_intro _ _ (sym is_found ∙ guard-eq-ok found _ present)
              (subst (λ d. all (in_catalogue d) roles ≡ true) kept rest),
          ap (λ r. r.1.users) (r₁ ∙ r₂) ∙ users,
        )

  pub load_profile-docs :
      (user_id : ObjectId) (w : World) → (load_profile x user_id w).1.users.docs ≡ w.users.docs
  unfolding load_profile ◌>>=◌
  load_profile-docs user_id w = ground (arith, find_by_id-docs x.users user_id w.users)

  -- The end that the handlers share, for the change that each makes.
  abbrev pub update_target : String → (User → User) → Handler MeResponse
  update_target id change = do
    user_id ← lift (parse_target_id x id)
    updated ← or_internal (in_users (Users.update x.users user_id change))
    lift (guard updated unknown_user)
    load_profile x user_id

  pub update_target-ok :
      (id : String) (change : User → User) (w : World) (answer : MeResponse)
      → (update_target id change w).0 ≡ ok answer
      → (user_id : ObjectId) × (x.parse_str id ≡ some user_id)
        × ((update_target id change w).1.users.docs
            ≡ modify_first (has_id user_id) change w.users.docs)
  unfolding parse_target_id
  update_target-ok id change w answer e = invert_run _ _ _ e λ user_id parsed r₁ e₁.
      invert_run _ _ _ e₁ λ updated wrote r₂ e₂. invert_run _ _ _ e₂ λ _ present r₃ e₃.
        let (_, changed) = update-ok x.users user_id change _ updated (relabel-eq-ok _ _ wrote) in
        (
          user_id,
          ok_or-eq-ok _ _ parsed,
          ap (λ r. r.1.users.docs) (r₁ ∙ r₂ ∙ r₃) ∙ load_profile-docs user_id _ ∙ changed,
        )

  -- Roles are written only for an administrator, and only if each is the name of a role of the
  -- catalogue, but for white space around it; they are written as they were sent.
  pub update_roles-ok :
      (id : String) (payload : Result JsonRejection (List String)) (w : World) (answer : MeResponse)
      → (update_roles x state ambient id payload w).0 ≡ ok answer
      → IsAdministrator
        × (roles : List String) × (payload ≡ ok roles)
        × (all (in_catalogue w.roles.docs) roles ≡ true)
        × (user_id : ObjectId) × (x.parse_str id ≡ some user_id)
        × ((update_roles x state ambient id payload w).1.users.docs
            ≡ modify_first (has_id user_id) (with_roles (ambient.clock 1) roles) w.users.docs)
  unfolding update_roles administrator Users.update_roles
  update_roles-ok id payload w answer e = invert_run _ _ _ e λ claims admin r₁ e₁.
      invert_run _ _ _ e₁ λ roles accepts r₂ e₂. invert_run _ _ _ e₂ λ _ known r₃ e₃.
        let (every, users) = require_catalogue-ok roles w known in
        let (user_id, parsed, changed) = update_target-ok id _ _ answer e₃ in
        (
          (claims, admin),
          roles,
          (accepted-eq-ok x.iterate _ _ roles accepts).0,
          every,
          user_id,
          parsed,
          ap (λ r. r.1.users.docs) (r₁ ∙ r₂ ∙ r₃)
              ∙ changed
              ∙ ap
                  (λ (u : Store User).
                    modify_first (has_id user_id) (with_roles (ambient.clock 1) roles) u.docs)
                  users,
        )

  ips_error-eq-ok : (r : Result String (Unit {0})) → field_error (ips_error r) ≡ [] → r ≡ ok tt
  unfolding field_error
  ips_error-eq-ok (ok valid) e = refl
  ips_error-eq-ok (err invalid) e = cc

  open_or_listed :
      (only : Bool) (ips : List String)
      → not (only && is_nil ips) ≡ true
      → (only ≡ false) ⊎ (ips ≢ [])
  open_or_listed only [] h = ground arith
  open_or_listed only (ip ∷ ips) h = ground arith

  -- A list of addresses is written only for an administrator, and only if each entry is an address
  -- or a network; an account is never restricted to an empty list.
  pub update_whitelist-ok :
      (id : String) (payload : Result JsonRejection UpdateWhitelistRequest) (w : World)
      (answer : MeResponse)
      → (update_whitelist x state ambient id payload w).0 ≡ ok answer
      → IsAdministrator
        × (request : UpdateWhitelistRequest) × (payload ≡ ok request)
        × (validate_entries x.net request.allowed_ips ≡ ok tt)
        × ((request.whitelist_only ≡ false) ⊎ (request.allowed_ips ≢ []))
        × (user_id : ObjectId) × (x.parse_str id ≡ some user_id)
        × ((update_whitelist x state ambient id payload w).1.users.docs
            ≡ modify_first
                (has_id user_id)
                (with_whitelist (ambient.clock 1) request.whitelist_only request.allowed_ips)
                w.users.docs)
  unfolding update_whitelist administrator Users.update_whitelist validate_allowed_ips
  update_whitelist-ok id payload w answer e = invert_run _ _ _ e λ claims admin r₁ e₁.
      invert_run _ _ _ e₁ λ request accepts r₂ e₂. invert_run _ _ _ e₂ λ _ opens r₃ e₃.
        let (sent, valid) = accepted-eq-ok x.iterate _ _ request accepts in
        let (user_id, parsed, changed) = update_target-ok id _ _ answer e₃ in
        (
          (claims, admin),
          request,
          sent,
          ips_error-eq-ok _ valid,
          open_or_listed request.whitelist_only request.allowed_ips (guard-eq-ok _ _ opens),
          user_id,
          parsed,
          ap (λ r. r.1.users.docs) (r₁ ∙ r₂ ∙ r₃) ∙ changed,
        )

  published-docs :
      (connected : Bool) (event : UserDeletedEvent) (w : World)
      → (if connected then record w { published = event ∷ w.published } else w).users.docs
        ≡ w.users.docs
  published-docs true event w = refl
  published-docs false event w = refl

  published-event :
      (connected : Bool) (event : UserDeletedEvent) (w : World)
      → (if connected then record w { published = event ∷ w.published } else w).published
        ≡ (if connected then event ∷ w.published else w.published)
  published-event true event w = refl
  published-event false event w = refl

  -- A deletion by an administrator removes the one account of the id, and publishes one event with
  -- the id's text where the relay is connected, none where it is not.
  pub delete_user-ok :
      (id : String) (w : World)
      → (delete_user x state ambient id w).0 ≡ ok tt
      → IsAdministrator
        × (user_id : ObjectId) × (x.parse_str id ≡ some user_id)
        × (any (has_id user_id) w.users.docs ≡ true)
        × ((delete_user x state ambient id w).1.users.docs
            ≡ remove_first (has_id user_id) w.users.docs)
        × ((delete_user x state ambient id w).1.published ≡ (
            if state.relay_connected
            then new ambient.uuid (x.to_hex user_id) (x.rfc3339 (ambient.clock 1)) ∷ w.published
            else w.published))
  unfolding delete_user administrator parse_target_id publish_user_deleted
  delete_user-ok id w e = invert_run _ _ _ e λ claims admin r₁ e₁.
      invert_run _ _ _ e₁ λ user_id parsed r₂ e₂. invert_run _ _ _ e₂ λ deleted wrote r₃ e₃.
        invert_run _ _ _ e₃ λ _ present r₄ e₄.
          let same = ap (λ r. r.1) (r₁ ∙ r₂ ∙ r₃ ∙ r₄) in
          let (is_there, removed) = delete-ok x.users user_id _ deleted (relabel-eq-ok _ _ wrote) in
          (
            (claims, admin),
            user_id,
            ok_or-eq-ok _ _ parsed,
            sym is_there ∙ guard-eq-ok deleted _ present,
            ap (λ v. v.users.docs) same ∙ published-docs state.relay_connected _ _ ∙ removed,
            ap (λ v. v.published) same ∙ published-event state.relay_connected _ _,
          )

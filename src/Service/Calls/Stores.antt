-- ===== src/Service/Calls/Stores.antt =====
-- The calls of the other repositories.
use ch_api_authenticator.Repository.Roles.{exists}
use ch_api_authenticator.Repository.RefreshTokens.{create}
use ch_api_authenticator.Repository.ResetTokens.{consume}
use ch_api_authenticator.Service.Policy.{Given}
use ch_api_authenticator.Service.Policy.{Step}
use ch_api_authenticator.Service.Policy.{here}
use ch_api_authenticator.Service.Policy.{next}
use ch_api_authenticator.Service.Policy.{Steps}
use ch_api_authenticator.Repository.ResetTokens.{replace_for_user}
use ch_api_authenticator.State.{World}
use ch_api_authenticator.Exec.{Result, continue, err, ok, pure, ◌>>◌}
use ch_api_authenticator.Service.Runs.{Runs-settings}
use ch_api_authenticator.Service.Runs.{Runs-roles}
use ch_api_authenticator.Service.Runs.{Runs-reset_tokens}
use ch_api_authenticator.Service.Runs.{Runs-refresh_tokens}
use ch_api_authenticator.Repository.ResetTokens.Calls.{replacement}
use ch_api_authenticator.Repository.Settings.{
  is_global, registration_enabled, set_registration_enabled,
}
use ch_api_authenticator.Base.Lists.{find}
use ch_api_authenticator.Repository.Roles.Calls.{exists-docs}
use ch_api_authenticator.Repository.RefreshTokens.Calls.{consume-docs, create-docs}
use ch_api_authenticator.Service.Runs.{Runs}
use ch_api_authenticator.Repository.ResetTokens.{ResetToken, is_of_user, use_up}
use ch_api_authenticator.Service.Policy.{RefreshTokensWrite, ResetTokensWrite, RolesWrite}
use ch_api_authenticator.Repository.RefreshTokens.{
  RefreshToken, consume_for_rotation, find_by_hash, revoke, revoke_all_for_user, revoke_family,
}
use ch_api_authenticator.Domain.Role.{Portal, Role, is_portal_role, sub_role}
use ch_api_authenticator.Mongo.{MongoError, Store}
use ch_api_authenticator.Handlers.Admin.Laws.{IsAdministrator}
use ch_api_authenticator.Exec.{Exec, ◌>>=◌}
use ch_api_authenticator.Domain.User.{DateTime, ObjectId}
use ch_api_authenticator.Base.{Bool, String, arith, false, inl, inr, some, ℕ, ◌&&◌, ◌≡◌}
use ch_api_authenticator.State.{
  Ambient, AppState, Platform, in_refresh_tokens, in_reset_tokens, in_roles, in_settings,
}
use ch_api_authenticator.Repository.Roles
use ch_api_authenticator.Repository.ResetTokens
use ch_api_authenticator.Repository.RefreshTokens

module _ (x : Platform) (ambient : Ambient) (now : DateTime) (user_id : ObjectId) (ttl : ℕ) where
  abbrev offered : ResetToken
  offered = replacement now user_id (x.crypto.hash_token ambient.token) ttl

  abbrev offer : Exec (Store ResetToken) MongoError (Unit {0})
  offer = do x.reset_tokens.insert_one offered; pure tt

module _ {x : Platform} {state : AppState} {ambient : Ambient} {given : Given} where
  pub roles_read-Runs :
      {A : Type 0} (m : Exec (Store Role) MongoError A)
      → ((s : Store Role) → (m s).1.docs ≡ s.docs)
      → Runs x state ambient given (in_roles m)
  roles_read-Runs m same = Runs-roles m λ s. RolesWrite.keeps (same s)

  pub role_exists-Runs :
      (name : String) → Runs x state ambient given (in_roles (Roles.exists x.roles name))
  role_exists-Runs name = roles_read-Runs _ (exists-docs x.roles name)

  pub roles_list-Runs : Runs x state ambient given (in_roles (Roles.list x.roles x.text_before))
  unfolding Roles.list
  roles_list-Runs = roles_read-Runs _ λ s. x.roles.find_sorted_law _ _ 0 0 s

module _ {x : Platform} {state : AppState} {ambient : Ambient} where
  role_insert-Write :
      (now : DateTime) (name : String) (p : Portal)
      → IsAdministrator x state ambient
      → (s : Store Role)
      → RolesWrite x state ambient s.docs (Roles.insert x.roles (sub_role now name p) s).1.docs
  unfolding Roles.insert
  role_insert-Write now name p right s = elim (x.roles.insert_one_law (sub_role now name p) s) [
    | inl (id, _, wrote, free) ↦ RolesWrite.creates now name p id right free wrote
    | inr (_, _, inl same) ↦ RolesWrite.keeps same
    | inr (_, _, inr (id, wrote, free)) ↦ RolesWrite.creates now name p id right free wrote
  ]

module _ {x : Platform} {state : AppState} {ambient : Ambient} {given : Given} where
  pub role_insert-Runs :
      (now : DateTime) (name : String) (p : Portal)
      → IsAdministrator x state ambient
      → Runs x state ambient given (in_roles (Roles.insert x.roles (sub_role now name p)))
  role_insert-Runs now name p right = Runs-roles _ (role_insert-Write now name p right)

module _ {x : Platform} {state : AppState} {ambient : Ambient} where
  pub role_delete-Write :
      (id : ObjectId) (role : Role)
      → IsAdministrator x state ambient
      → is_portal_role role ≡ false
      → (s : Store Role) → find (Roles.has_id id) s.docs ≡ some role
      → RolesWrite x state ambient s.docs (Roles.delete x.roles id s).1.docs
  unfolding Roles.delete ◌>>=◌
  role_delete-Write id role right free s found = elim (x.roles.delete_one_law (Roles.has_id id) s) [
    | inl (_, wrote) ↦ RolesWrite.deletes id role right found free (ground arith)
    | inr (_, _, inl same) ↦ RolesWrite.keeps (ground arith)
    | inr (_, _, inr wrote) ↦ RolesWrite.deletes id role right found free (ground arith)
  ]

module _ {x : Platform} {state : AppState} {ambient : Ambient} {given : Given} where
  pub registration_enabled-Runs :
      Runs x state ambient given (in_settings (registration_enabled x.settings))
  unfolding registration_enabled ◌>>=◌
  registration_enabled-Runs =
      Runs-settings _ λ s. inl (ground (arith, x.settings.find_one_law is_global s))

  pub set_registration_enabled-Runs :
      (enabled : Bool)
      → IsAdministrator x state ambient
      → Runs x state ambient given (in_settings (set_registration_enabled x.settings enabled))
  set_registration_enabled-Runs enabled right = Runs-settings _ λ s. inr right

module _ {x : Platform} {state : AppState} {ambient : Ambient} where
  module _ (now : DateTime) (user_id : ObjectId) (ttl : ℕ) where
    offer-Write :
        (s : Store ResetToken)
        → ResetTokensWrite x state ambient s.docs (offer x ambient now user_id ttl s).1.docs
    unfolding ◌>>=◌
    offer-Write s = elim (x.reset_tokens.insert_one_law (offered x ambient now user_id ttl) s) [
      | inl (_, _, wrote, free) ↦ ResetTokensWrite.offers now user_id ttl free (ground arith)
      | inr (_, _, inl same) ↦ ResetTokensWrite.keeps (ground arith)
      | inr (_, _, inr (_, wrote, free)) ↦
          ResetTokensWrite.offers now user_id ttl free (ground arith)
    ]

    clear-Write :
        (s : Store ResetToken)
        → ResetTokensWrite x state ambient s.docs
            (x.reset_tokens.delete_many (ResetTokens.is_of_user user_id) s).1.docs
    clear-Write s = elim (x.reset_tokens.delete_many_law (ResetTokens.is_of_user user_id) s) [
      | inl (_, wrote) ↦ ResetTokensWrite.clears (ResetTokens.is_of_user user_id) wrote
      | inr (_, _, reached, wrote) ↦
          ResetTokensWrite.clears (λ d. reached d && ResetTokens.is_of_user user_id d) wrote
    ]

module _ {x : Platform} {state : AppState} {ambient : Ambient} {given : Given} where
  module _ (now : DateTime) (user_id : ObjectId) (ttl : ℕ) where
    -- The old tokens go first, and the new one is stored if that succeeded.
    offered-Steps :
        (r : Result MongoError ℕ) (w : World) (s : Store ResetToken)
        → ResetTokensWrite x state ambient w.reset_tokens.docs s.docs
        → Steps x state ambient given w
            (record w { reset_tokens = (continue r (λ _. (offer x ambient now user_id ttl)) s).1 })
    offered-Steps (ok n) w s cleared = next (next here (Step.reset_tokens w s cleared)) (
        Step.reset_tokens (record w { reset_tokens = s }) (offer x ambient now user_id ttl s).1
          (offer-Write now user_id ttl s))
    offered-Steps (err e) w s cleared = next here (Step.reset_tokens w s cleared)

    pub replace-Runs : Runs x state ambient given (
        in_reset_tokens (
          ResetTokens.replace_for_user x.reset_tokens now user_id
            (x.crypto.hash_token ambient.token)
            ttl))
    unfolding ResetTokens.replace_for_user ◌>>=◌
    replace-Runs = record {
      at = λ w.
          let cleared =
            x.reset_tokens.delete_many (ResetTokens.is_of_user user_id) w.reset_tokens in
          offered-Steps cleared.0 w cleared.1 (clear-Write now user_id ttl w.reset_tokens);
    }

  pub reset_consume-Runs :
      (now : DateTime) (h : String)
      → Runs x state ambient given (in_reset_tokens (ResetTokens.consume x.reset_tokens now h))
  unfolding ResetTokens.consume
  reset_consume-Runs now h = Runs-reset_tokens _ λ s.
      elim (x.reset_tokens.find_one_and_update_law (ResetTokens.is_usable h now) use_up s) [
        | inl (_, wrote) ↦ ResetTokensWrite.uses now h wrote
        | inr (_, _, inl same) ↦ ResetTokensWrite.keeps same
        | inr (_, _, inr wrote) ↦ ResetTokensWrite.uses now h wrote
      ]

  pub rotation-Runs :
      (now : DateTime) (h : String)
      → Runs x state ambient given
          (in_refresh_tokens (RefreshTokens.consume_for_rotation x.refresh_tokens now h))
  rotation-Runs now h = Runs-refresh_tokens _ λ s. elim (consume-docs x.refresh_tokens now h s) [
    | inl wrote ↦ RefreshTokensWrite.consumes now h wrote
    | inr same ↦ RefreshTokensWrite.keeps same
  ]

module _ {x : Platform} {state : AppState} {ambient : Ambient} where
  revoke-Write :
      (p : RefreshToken → Bool) (s : Store RefreshToken)
      → RefreshTokensWrite x state ambient s.docs (x.refresh_tokens.update_many p revoke s).1.docs
  revoke-Write p s = elim (x.refresh_tokens.update_many_law p revoke s) [
    | inl (_, wrote) ↦ RefreshTokensWrite.revokes p wrote
    | inr (_, _, reached, wrote) ↦ RefreshTokensWrite.revokes (λ d. reached d && p d) wrote
  ]

module _ {x : Platform} {state : AppState} {ambient : Ambient} {given : Given} where
  pub revoke_family-Runs :
      (family_id : ObjectId)
      → Runs x state ambient given
          (in_refresh_tokens (RefreshTokens.revoke_family x.refresh_tokens family_id))
  unfolding RefreshTokens.revoke_family
  revoke_family-Runs family_id = Runs-refresh_tokens _ (revoke-Write _)

  pub revoke_all_for_user-Runs :
      (user_id : ObjectId)
      → Runs x state ambient given
          (in_refresh_tokens (RefreshTokens.revoke_all_for_user x.refresh_tokens user_id))
  unfolding RefreshTokens.revoke_all_for_user
  revoke_all_for_user-Runs user_id = Runs-refresh_tokens _ (revoke-Write _)

  pub find_by_hash-Runs :
      (h : String)
      → Runs x state ambient given
          (in_refresh_tokens (RefreshTokens.find_by_hash x.refresh_tokens h))
  unfolding RefreshTokens.find_by_hash
  find_by_hash-Runs h =
      Runs-refresh_tokens _ λ s. RefreshTokensWrite.keeps (x.refresh_tokens.find_one_law _ s).0

  pub create-Runs :
      (now : DateTime) (user_id family_id : ObjectId) (ttl : ℕ)
      → Runs x state ambient given (
          in_refresh_tokens (
            RefreshTokens.create x.refresh_tokens now user_id family_id
              (x.crypto.hash_token ambient.token)
              ttl))
  create-Runs now user_id family_id ttl = Runs-refresh_tokens _ λ s.
      elim (create-docs x.refresh_tokens now user_id family_id (x.crypto.hash_token ambient.token)
        ttl s) [
          | inl same ↦ RefreshTokensWrite.keeps same
          | inr (wrote, free) ↦ RefreshTokensWrite.opens now user_id family_id ttl free wrote
        ]

-- ===== src/Handlers/Admin/Changes.antt =====
-- What an administrator's change of a status or a password writes.
use ch_api_authenticator.Exec.{◌>>=◌}
use ch_api_authenticator.Handlers.Admin.Laws.{update_target}
use ch_api_authenticator.Handlers.Admin.{load_profile}
use ch_api_authenticator.Handlers.Password.{change}
use ch_api_authenticator.Base.{arith}
use ch_api_authenticator.Domain.User.{User}
use ch_api_authenticator.Repository.Users.{has_id}
use ch_api_authenticator.Repository.Users.{has_id}
use ch_api_authenticator.Repository.Users.Calls.{update-ok}
use ch_api_authenticator.Handlers.Password.{strength_errors}
use ch_api_authenticator.Handlers.Admin.{parse_target_id, update_password, update_status}
use ch_api_authenticator.Mongo.Docs.{modify_first}
use ch_api_authenticator.Exec.Laws.{invert_run, ok_or-eq-ok, relabel-eq-ok}
use ch_api_authenticator.Handlers.Request.{administrator}
use ch_api_authenticator.Handlers.Request.Laws.{accepted-eq-ok}
use ch_api_authenticator.Repository.Users.{Users, with_password, with_status}
use ch_api_authenticator.Base.{String, [], ap, some, ◌∙◌, ◌≡◌}
use ch_api_authenticator.Exec.{Result, ok}
use ch_api_authenticator.Handlers.Me.{MeResponse}
use ch_api_authenticator.Error.{JsonRejection, internal}
use ch_api_authenticator.Handlers.Admin.Laws.{IsAdministrator, update_target-ok}
use ch_api_authenticator.State.{Ambient, AppState, Platform, World}
use ch_api_authenticator.Domain.User.{AccountStatus, ObjectId}
use ch_api_authenticator.Repository.Users

module _ (x : Platform) (state : AppState) (ambient : Ambient) where
  update_target-tokens :
      (id : String) (change : User → User) (w : World)
      → (update_target x state ambient id change w).1.refresh_tokens ≡ w.refresh_tokens
  unfolding load_profile parse_target_id ◌>>=◌
  update_target-tokens id change w = ground arith

  -- A status is written only for an administrator, and to the account of the id alone;
  -- the refresh tokens stay as they were.
  pub update_status-ok :
      (id : String) (payload : Result JsonRejection AccountStatus) (w : World) (answer : MeResponse)
      → (update_status x state ambient id payload w).0 ≡ ok answer
      → IsAdministrator x state ambient
        × (status : AccountStatus) × (payload ≡ ok status)
        × (user_id : ObjectId) × (x.parse_str id ≡ some user_id)
        × ((update_status x state ambient id payload w).1.users.docs
            ≡ modify_first (has_id user_id) (with_status (ambient.clock 1) status) w.users.docs)
        × ((update_status x state ambient id payload w).1.refresh_tokens ≡ w.refresh_tokens)
  unfolding update_status administrator Users.update_status
  update_status-ok id payload w answer e = invert_run _ _ _ e λ claims admin r₁ e₁.
      invert_run _ _ _ e₁ λ status accepts r₂ e₂.
        let (user_id, parsed, changed) = update_target-ok x state ambient id _ _ answer e₂ in
        (
          (claims, admin),
          status,
          (accepted-eq-ok x.iterate _ _ status accepts).0,
          user_id,
          parsed,
          ap (λ r. r.1.users.docs) (r₁ ∙ r₂) ∙ changed,
          ap (λ r. r.1.refresh_tokens) (r₁ ∙ r₂)
              ∙ update_target-tokens id (with_status (ambient.clock 1) status) w,
        )

  -- A password is written only for an administrator and only if it passes the checks, to the account
  -- of the id alone; the account's refresh tokens stay as they were.
  pub update_password-ok :
      (id : String) (payload : Result JsonRejection String) (w : World)
      → (update_password x state ambient id payload w).0 ≡ ok tt
      → IsAdministrator x state ambient
        × (password : String) × (hash : String) × (payload ≡ ok password)
        × (strength_errors x password ≡ [])
        × (x.crypto.hash_password ambient.salt password ≡ some hash)
        × (user_id : ObjectId) × (x.parse_str id ≡ some user_id)
        × ((update_password x state ambient id payload w).1.users.docs
            ≡ modify_first (has_id user_id) (with_password (ambient.clock 1) hash) w.users.docs)
        × ((update_password x state ambient id payload w).1.refresh_tokens ≡ w.refresh_tokens)
  unfolding update_password administrator Users.update_password parse_target_id
  update_password-ok id payload w e = invert_run _ _ _ e λ claims admin r₁ e₁.
      invert_run _ _ _ e₁ λ password accepts r₂ e₂. invert_run _ _ _ e₂ λ user_id parsed r₃ e₃.
        invert_run _ _ _ e₃ λ hash hashed r₄ e₄. invert_run _ _ _ e₄ λ updated wrote r₅ e₅.
          let (sent, strong) = accepted-eq-ok x.iterate _ _ password accepts in
          let (_, changed) = update-ok x.users user_id _ _ updated (relabel-eq-ok _ _ wrote) in
          let same = ap (λ r. r.1) (r₁ ∙ r₂ ∙ r₃ ∙ r₄ ∙ r₅) in
          (
            (claims, admin),
            password,
            hash,
            sent,
            strong,
            ok_or-eq-ok _ internal hashed,
            user_id,
            ok_or-eq-ok _ _ parsed,
            ap (λ v. v.users.docs) same ∙ changed,
            ap (λ v. v.refresh_tokens) same,
          )

-- ===== src/Handlers/Password/Laws.antt =====
-- What a changed or a reset password rests on, and what is written.
use ch_api_authenticator.Repository.Users.Calls.{find_by_id-ok}
use ch_api_authenticator.Handlers.Request.{signed_in}
use ch_api_authenticator.State.{seconds}
use ch_api_authenticator.Repository.Users.{loaded}
use ch_api_authenticator.Repository.Users.Calls.{find_by_id-docs}
use ch_api_authenticator.Middleware.Auth.{auth_user}
use ch_api_authenticator.Domain.User.{User}
use ch_api_authenticator.Services.Jwt.{Claims}
use ch_api_authenticator.Handlers.Password.{ChangePasswordRequest, change, change_errors}
use mathlib.Core.Option
use ch_api_authenticator.Repository.Users.{update_password}
use ch_api_authenticator.Repository.Users.Calls.{update-ok}
use ch_api_authenticator.Handlers.Password.{revoke_sessions}
use ch_api_authenticator.Exec.{pure, ◌>>◌}
use ch_api_authenticator.Error.{internal}
use ch_api_authenticator.Exec.Laws.{guard-eq-ok, ok_or-eq-ok}
use ch_api_authenticator.Base.{ap, refl, sym, ◌∙◌}
use ch_api_authenticator.Domain.User.{ObjectId}
use ch_api_authenticator.Repository.RefreshTokens.{revoke_all_for_user}
use ch_api_authenticator.Mongo.Docs.{modify_first}
use ch_api_authenticator.Exec.Laws.{invert_run, relabel-eq-ok}
use ch_api_authenticator.Repository.Users.{has_id, with_password}
use ch_api_authenticator.Repository.ResetTokens.Calls.{consume-ok}
use ch_api_authenticator.Base.Lists.{any, find}
use ch_api_authenticator.Handlers.Request.Laws.{accepted-eq-ok}
use ch_api_authenticator.Base.{String, [], some, true, ◌≡◌}
use ch_api_authenticator.Exec.{Result, ok}
use ch_api_authenticator.Repository.ResetTokens.{ResetToken, is_usable, use_up}
use ch_api_authenticator.Handlers.Password.{ResetRequest, reset, reset_errors}
use ch_api_authenticator.Error.{JsonRejection}
use ch_api_authenticator.State.{Ambient, AppState, Platform, World}
use ch_api_authenticator.Exec.{◌>>=◌}

module _ (x : Platform) (state : AppState) (ambient : Ambient) where
  -- The reset that led from the first world to the second.
  pub record IsReset (w w' : World) (request : ResetRequest) : Type 0 where
    pub stored : ResetToken
    pub hash : String
    pub acceptable : reset_errors x request ≡ []
    pub usable :
        find (is_usable (x.crypto.hash_token request.token) (ambient.clock 0)) w.reset_tokens.docs
        ≡ some stored
    pub hashed : x.crypto.hash_password ambient.salt request.new_password ≡ some hash
    pub used :
        w'.reset_tokens.docs
        ≡ modify_first
            (is_usable (x.crypto.hash_token request.token) (ambient.clock 0))
            use_up
            w.reset_tokens.docs
    pub known : any (has_id stored.user_id) w.users.docs ≡ true
    pub changed :
        w'.users.docs
        ≡ modify_first (has_id stored.user_id) (with_password (ambient.clock 1) hash) w.users.docs
    pub revoked :
        w'.refresh_tokens ≡ (revoke_all_for_user x.refresh_tokens stored.user_id w.refresh_tokens).1

  abbrev revoked_world : ObjectId → World → World
  revoked_world user_id w = record w {
    refresh_tokens = (revoke_all_for_user x.refresh_tokens user_id w.refresh_tokens).1;
  }

  revoke_sessions-run :
      (user_id : ObjectId) (w : World) (message : String)
      → (revoke_sessions x user_id >> pure message) w ≡ (ok message, revoked_world user_id w)
  unfolding revoke_sessions ◌>>=◌
  revoke_sessions-run user_id w message = refl

  -- A password is reset only by a stored token that is not used and not expired, for an
  -- account that exists; the token is used up, the hash of the new password, which passes the
  -- checks, is written to that account alone, and its refresh tokens are left as their
  -- revocation leaves them.
  pub reset-IsReset :
      (w : World) (payload : Result JsonRejection ResetRequest) (message : String)
      → (reset x state ambient payload w).0 ≡ ok message
      → (request : ResetRequest) × (payload ≡ ok request)
        × IsReset w (reset x state ambient payload w).1 request
  unfolding reset update_password
  reset-IsReset w payload message e = invert_run _ _ _ e λ request accepts r₁ e₁.
      invert_run _ _ _ e₁ λ found took r₂ e₂. invert_run _ _ _ e₂ λ stored is_stored r₃ e₃.
        invert_run _ _ _ e₃ λ hash hashed r₄ e₄. invert_run _ _ _ e₄ λ updated wrote r₅ e₅.
          invert_run _ _ _ e₅ λ _ known r₆ e₆.
            let (sent, acceptable) = accepted-eq-ok x.iterate _ _ request accepts in
            let (is_found, used) = consume-ok x.reset_tokens _ _ _ found (relabel-eq-ok _ _ took) in
            let same =
              ap (λ r. r.1)
                (r₁ ∙ r₂ ∙ r₃ ∙ r₄ ∙ r₅ ∙ r₆ ∙ revoke_sessions-run stored.user_id _ _) in
            let (is_known, changed) =
              update-ok x.users stored.user_id _ w.users updated (relabel-eq-ok _ _ wrote) in
            (
              request,
              sent,
              record {
                stored = stored;
                hash = hash;
                acceptable = acceptable;
                usable = sym is_found ∙ ok_or-eq-ok found _ is_stored;
                hashed = ok_or-eq-ok _ internal hashed;
                used = ap (λ v. v.reset_tokens.docs) same ∙ used;
                known = sym is_known ∙ guard-eq-ok updated _ known;
                changed = ap (λ v. v.users.docs) same ∙ changed;
                revoked = ap (λ v. v.refresh_tokens) same;
              },
            )

  -- The change of a password that led from the first world to the second.
  pub record IsChange (w w' : World) (request : ChangePasswordRequest) : Type 0 where
    pub claims : Claims
    pub user_id : ObjectId
    pub user : User
    pub hash : String
    pub signed :
        auth_user x.jwt state.jwt state.settings.config.token.cookie_name
          (seconds (ambient.clock 0))
          ambient.headers
        ≡ ok claims
    pub subject : x.parse_str claims.sub ≡ some user_id
    pub account : Option.map loaded (find (has_id user_id) w.users.docs) ≡ some user
    pub verified : x.crypto.verify_password request.current_password user.password_hash ≡ true
    pub acceptable : change_errors x request ≡ []
    pub hashed : x.crypto.hash_password ambient.salt request.new_password ≡ some hash
    pub changed :
        w'.users.docs
        ≡ modify_first (has_id user_id) (with_password (ambient.clock 1) hash) w.users.docs
    pub revoked :
        w'.refresh_tokens ≡ (revoke_all_for_user x.refresh_tokens user_id w.refresh_tokens).1

  -- A password is changed only for the account that a valid access token names and only if the
  -- current password verifies; the hash of the new password, which passes the checks, is
  -- written to that account alone, and its refresh tokens are left as their revocation leaves
  -- them.
  pub change-IsChange :
      (w : World) (payload : Result JsonRejection ChangePasswordRequest) (message : String)
      → (change x state ambient payload w).0 ≡ ok message
      → (request : ChangePasswordRequest) × (payload ≡ ok request)
        × IsChange w (change x state ambient payload w).1 request
  unfolding change update_password signed_in
  change-IsChange w payload message e = invert_run _ _ _ e λ claims signed r₁ e₁.
      invert_run _ _ _ e₁ λ request accepts r₂ e₂. invert_run _ _ _ e₂ λ id subject r₃ e₃.
        invert_run _ _ _ e₃ λ found read r₄ e₄. invert_run _ _ _ e₄ λ user is_user r₅ e₅.
          invert_run _ _ _ e₅ λ _ verified r₆ e₆. invert_run _ _ _ e₆ λ hash hashed r₇ e₇.
            invert_run _ _ _ e₇ λ updated wrote r₈ e₈. invert_run _ _ _ e₈ λ _ known r₉ e₉.
              let (sent, acceptable) = accepted-eq-ok x.iterate _ _ request accepts in
              let same =
                ap (λ r. r.1)
                  (r₁ ∙ r₂ ∙ r₃ ∙ r₄ ∙ r₅ ∙ r₆ ∙ r₇ ∙ r₈ ∙ r₉ ∙ revoke_sessions-run id _ _) in
              let (_, changed) = update-ok x.users id _ _ updated (relabel-eq-ok _ _ wrote) in
              (
                request,
                sent,
                record {
                  claims = claims;
                  user_id = id;
                  user = user;
                  hash = hash;
                  signed = signed;
                  subject = ok_or-eq-ok _ _ subject;
                  account =
                      sym (find_by_id-ok x.users id _ found (relabel-eq-ok _ _ read))
                      ∙ ok_or-eq-ok found _ is_user;
                  verified = guard-eq-ok _ _ verified;
                  acceptable = acceptable;
                  hashed = ok_or-eq-ok _ internal hashed;
                  changed =
                      ap (λ v. v.users.docs) same
                      ∙ changed
                      ∙ ap (modify_first (has_id id) (with_password (ambient.clock 1) hash))
                          (find_by_id-docs x.users id w.users);
                  revoked = ap (λ v. v.refresh_tokens) same;
                },
              )

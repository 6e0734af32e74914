-- ===== src/Handlers/Password/Steps.antt =====
-- The handlers of handlers/password.rs as runs of the policy's steps.
use ch_api_authenticator.Base.{ltb, ℕ, ◌<◌}
use ch_api_authenticator.Exec.Laws.{not-eq-true}
use ch_api_authenticator.Base.{String, and_elim}
use ch_api_authenticator.Repository.ResetTokens.{ResetToken, is_usable}
use ch_api_authenticator.Service.Policy.{HasResetToken}
use mathlib.Core.Option
use ch_api_authenticator.Repository.Users.{has_id, loaded}
use ch_api_authenticator.Repository.Users.Calls.{find_by_id-ok}
use ch_api_authenticator.Base.Lists.{find}
use ch_api_authenticator.Base.{List, Option-cases, arith, inl, inr, true}
use ch_api_authenticator.Service.Policy.{Steps}
use ch_api_authenticator.Error.{unauthorized}
use ch_api_authenticator.Service.Policy.{sent}
use ch_api_authenticator.Exec.Laws.{guard-eq-ok}
use ch_api_authenticator.Base.{ap}
use ch_api_authenticator.State.{World}
use ch_api_authenticator.Service.Runs.{Steps-lift, Steps-then}
use ch_api_authenticator.Service.Policy.{Given}
use ch_api_authenticator.Service.Policy.{token_sets}
use ch_api_authenticator.Service.Policy.{owner_sets}
use ch_api_authenticator.Service.Policy.{edits_password}
use ch_api_authenticator.Service.Calls.Stores.{replace-Runs}
use ch_api_authenticator.Service.Runs.{Runs-map_err}
use ch_api_authenticator.Service.Runs.{Runs-enforce_forgot}
use ch_api_authenticator.Service.Runs.{Runs-attempt}
use ch_api_authenticator.Service.Runs.{Runs-pure}
use ch_api_authenticator.Service.Runs.{Runs-lift}
use ch_api_authenticator.Service.Runs.{Runs-bind}
use ch_api_authenticator.Base.Lists.{append-eq-nil}
use ch_api_authenticator.Repository.Users.{update_password}
use ch_api_authenticator.Handlers.Request.{signed_in}
use ch_api_authenticator.Service.Calls.Stores.{reset_consume-Runs, revoke_all_for_user-Runs}
use ch_api_authenticator.Exec.Laws.{ok_or-eq-ok, relabel-eq-ok}
use ch_api_authenticator.Service.Calls.{find_by_email-Runs, find_by_id-Runs, update-Runs}
use ch_api_authenticator.Mongo.Docs.{find-some}
use ch_api_authenticator.Repository.ResetTokens.Calls.{consume-ok}
use ch_api_authenticator.Handlers.Request.Laws.{accepted-eq-ok}
use ch_api_authenticator.Service.Runs.{Runs, Runs-send_email}
use ch_api_authenticator.Exec.{Result}
use ch_api_authenticator.Base.{Option, [], none, refl, some, sym, ◌∙◌, ◌≡◌}
use ch_api_authenticator.Error.{JsonRejection, internal, invalid_token}
use ch_api_authenticator.Domain.User.{ObjectId, User}
use ch_api_authenticator.Handlers.Password.{
  ChangePasswordRequest, ForgotRequest, ResetRequest, change, change_errors, forgot,
  invalid_reset_token, offer_reset, reset, reset_errors, revoke_sessions, strength_errors,
}
use ch_api_authenticator.State.{Ambient, AppState, Platform}

has_id-id : (id : ObjectId) (user : User) → has_id id user ≡ true → user.id ≡ some id
has_id-id id user h = elim (Option-cases user.id) [
  | inl absent ↦ ground arith
  | inr (own, is_own) ↦ ground arith
]

-- What the store reads for an id has that id.
found-id :
    (id : ObjectId) (user : User) (accounts : List User)
    → Option.map loaded (find (has_id id) accounts) ≡ some user
    → user.id ≡ some id
found-id id user accounts e = elim (Option-cases (find (has_id id) accounts)) [
  | inl absent ↦ ground arith
  | inr (own, is_own) ↦ ground (arith, has_id-id id own (find-some (has_id id) accounts own is_own))
]

lt_of_ltb : (m n : ℕ) → ltb m n ≡ true → m < n
lt_of_ltb m n h = ground arith

module _ (x : Platform) (state : AppState) (ambient : Ambient) where
  strong_of_change :
      (request : ChangePasswordRequest)
      → change_errors x request ≡ []
      → strength_errors x request.new_password ≡ []
  strong_of_change request none_found = append-eq-nil _ _ none_found

  strong_of_reset :
      (request : ResetRequest)
      → reset_errors x request ≡ []
      → strength_errors x request.new_password ≡ []
  strong_of_reset request none_found = append-eq-nil _ _ none_found

  -- What is found by the test of a use is such a token.
  usable_token :
      (token : String) (stored : ResetToken) (w : World) {brought : Option String}
      → find (is_usable (x.crypto.hash_token token) (ambient.clock 0)) w.reset_tokens.docs
        ≡ some stored
      → brought ≡ some token
      → HasResetToken x state ambient
          (record { password = none; reset_token = brought; origin = w })
          stored.user_id
  usable_token token stored w found is_brought =
      let usable =
        find-some (is_usable (x.crypto.hash_token token) (ambient.clock 0)) _ stored found in
      (
        token,
        stored,
        _,
        is_brought,
        found,
        (and_elim _ _ (and_elim _ _ usable).0).0,
        not-eq-true _ (and_elim _ _ (and_elim _ _ usable).0).1,
        lt_of_ltb _ _ (and_elim _ _ usable).1,
        refl,
      )

module _ {x : Platform} {state : AppState} {ambient : Ambient} {given : Given} where
  revoke_sessions-Runs :
      (user_id : ObjectId) → Runs x state ambient given (revoke_sessions x user_id)
  unfolding revoke_sessions
  revoke_sessions-Runs user_id =
      Runs-bind (Runs-attempt (revoke_all_for_user-Runs user_id)) λ _. Runs-pure tt

  offer_reset-Runs :
      (found : Option User) → Runs x state ambient given (offer_reset x state ambient found)
  unfolding offer_reset
  offer_reset-Runs none = Runs-pure tt
  offer_reset-Runs (some user) =
      Runs-lift
        λ user_id _. Runs-bind (Runs-map_err _ (replace-Runs _ user_id _)) λ _. Runs-send_email _

  pub forgot-Runs :
      (payload : Result JsonRejection ForgotRequest)
      → Runs x state ambient given (forgot x state ambient payload)
  unfolding forgot
  forgot-Runs payload = Runs-lift λ _ _. Runs-bind (Runs-enforce_forgot _ _) λ _.
      Runs-bind (Runs-map_err _ (find_by_email-Runs _ _))
        λ found. Runs-bind (offer_reset-Runs found) λ _. Runs-pure _

module _ {x : Platform} {state : AppState} {ambient : Ambient} where
  -- The current password is checked against the account that the store holds.
  pub change-Steps :
      (payload : Result JsonRejection ChangePasswordRequest) (w : World)
      → Steps x state ambient
          (record {
            password = sent (λ r. r.current_password) payload;
            reset_token = none;
            origin = w;
          })
          w
          (change x state ambient payload w).1
  unfolding change signed_in update_password
  change-Steps payload w = Steps-lift _ w λ claims valid. Steps-lift _ w λ request accepts.
      Steps-lift _ w λ user_id parsed.
        Steps-then _ _ w ((Runs-map_err (λ _. internal) (find_by_id-Runs user_id)).at w)
          λ found read.
            (Runs-lift λ user is_some. Runs-lift λ _ verified. Runs-lift λ hash hashed.
                let (is_request, clean) = accepted-eq-ok x.iterate _ _ request accepts in
                let stored =
                  sym (find_by_id-ok x.users user_id w.users found (relabel-eq-ok _ _ read))
                  ∙ ok_or-eq-ok found invalid_token is_some in
                Runs-bind
                  (Runs-map_err _ (
                    update-Runs user_id _ (
                      edits_password _ request.new_password hash
                        (owner_sets (claims, valid, ok_or-eq-ok _ invalid_token parsed)
                          (
                            request.current_password,
                            user,
                            _,
                            ap (sent (λ r. r.current_password)) is_request,
                            stored,
                            found-id user_id user w.users.docs stored,
                            guard-eq-ok _ unauthorized verified,
                          ))
                        (strong_of_change x state ambient request clean)
                        (ok_or-eq-ok _ internal hashed) refl)))
                  λ _.
                    Runs-lift λ _ _. Runs-bind (revoke_sessions-Runs user_id) λ _. Runs-pure _).at
              _

  -- The token is looked up in the store, where it is neither used nor expired.
  pub reset-Steps :
      (payload : Result JsonRejection ResetRequest) (w : World)
      → Steps x state ambient
          (record { password = none; reset_token = sent (λ r. r.token) payload; origin = w })
          w
          (reset x state ambient payload w).1
  unfolding reset update_password
  reset-Steps payload w = Steps-lift _ w λ request accepts.
      Steps-then _ _ w ((Runs-map_err (λ _. internal) (reset_consume-Runs _ _)).at w) λ found read.
        (Runs-lift λ stored is_some. Runs-lift λ hash hashed.
            let (is_request, clean) = accepted-eq-ok x.iterate _ _ request accepts in
            Runs-bind
              (Runs-map_err _ (
                update-Runs stored.user_id _ (
                  edits_password _ request.new_password hash
                    (token_sets (
                      usable_token x state ambient request.token stored w
                        (sym
                            (consume-ok x.reset_tokens (ambient.clock 0)
                              (x.crypto.hash_token request.token) w.reset_tokens found
                              (relabel-eq-ok _ _ read)).0
                          ∙ ok_or-eq-ok found invalid_reset_token is_some)
                        (ap (sent (λ r. r.token)) is_request)))
                    (strong_of_reset x state ambient request clean) (ok_or-eq-ok _ internal hashed)
                    refl)))
              λ _.
                Runs-lift
                  λ _ _. Runs-bind (revoke_sessions-Runs stored.user_id) λ _. Runs-pure _).at
          _

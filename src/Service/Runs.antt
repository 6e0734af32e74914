-- ===== src/Service/Runs.antt =====
-- Runs of the service's code as sequences of the policy's steps: one rule for each way to build a
-- block, and one for each call of a repository.
use ch_api_authenticator.Service.Policy.{Given}
use ch_api_authenticator.Service.Policy.{Step}
use ch_api_authenticator.Service.Policy.{next}
use ch_api_authenticator.Service.Policy.{here}
use ch_api_authenticator.Service.Policy.{Steps}
use ch_api_authenticator.Exec.Laws.{relabel-eq-ok}
use ch_api_authenticator.Services.RateLimit.{enforce}
use ch_api_authenticator.Domain.Events.{UserDeletedEvent}
use ch_api_authenticator.Domain.User.{User}
use ch_api_authenticator.Mongo.{Store}
use ch_api_authenticator.Domain.Role.{Role}
use ch_api_authenticator.Repository.ResetTokens.{ResetToken}
use ch_api_authenticator.Repository.RefreshTokens.{RefreshToken}
use ch_api_authenticator.Repository.LoginEvents.{LoginEvent}
use ch_api_authenticator.Handlers.Admin.Laws.{IsAdministrator}
use ch_api_authenticator.Repository.Settings.{GlobalSettings}
use ch_api_authenticator.Exec.{
  Exec, Result, attempt, continue, err, lift, lift_err, map_err, ok, pure, raise, relabel, ◌>>=◌,
}
use ch_api_authenticator.Base.{Bool, String, false, if◌then◌else◌, refl, true, ℕ, ◌∷◌, ◌≡◌, ◌⊎◌}
use ch_api_authenticator.State.{
  Ambient, AppState, Email, Platform, World, enforce_forgot, enforce_login, enforce_refresh,
  in_login_events, in_refresh_tokens, in_reset_tokens, in_roles, in_settings, in_users,
  publish_user_deleted, send_email,
}
use ch_api_authenticator.Service.Policy.{
  AccountsWrite, RefreshTokensWrite, ResetTokensWrite, RolesWrite, Steps-append,
}

module _ (x : Platform) (state : AppState) (ambient : Ambient) (given : Given) where
  -- Wherever it starts, and whether it succeeds or fails, the code takes steps of the policy only.
  pub record Runs {E A : Type 0} (m : Exec World E A) : Type 0 where
    pub at : (w : World) → Steps x state ambient given w (m w).1

module _ {x : Platform} {state : AppState} {ambient : Ambient} {given : Given} where
  module _ {E A : Type 0} where
    pub Runs-pure : (a : A) → Runs x state ambient given {E = E} (pure a)
    Runs-pure a = record { at = λ w. here }

    pub Runs-raise : (e : E) → Runs x state ambient given {E = E} {A = A} (raise e)
    Runs-raise e = record { at = λ w. here }

    pub Runs-end : (r : Result E A) → Runs x state ambient given (lift r)
    Runs-end r = record { at = λ w. here }

    pub Runs-attempt :
        {F : Type 0} {m : Exec World E A}
        → Runs x state ambient given m
        → Runs x state ambient given {E = F} (attempt m)
    Runs-attempt k = record { at = k.at }

    pub Runs-map_err :
        {F : Type 0} (f : E → F) {m : Exec World E A}
        → Runs x state ambient given m
        → Runs x state ambient given (map_err f m)
    Runs-map_err f k = record { at = k.at }

    pub Runs-if :
        (b : Bool) {m n : Exec World E A}
        → Runs x state ambient given m
        → Runs x state ambient given n
        → Runs x state ambient given (if b then m else n)
    Runs-if true k l = k
    Runs-if false k l = l

  module _ {E A B : Type 0} where
    Steps-continue :
        (r : Result E A) (f : A → Exec World E B) (v w : World)
        → Steps x state ambient given v w
        → ((a : A) → r ≡ ok a → Steps x state ambient given w (f a w).1)
        → Steps x state ambient given v (continue r f w).1
    Steps-continue (ok a) f v w before k = Steps-append x state ambient given before (k a refl)
    Steps-continue (err e) f v w before k = before

    -- The rest may use what the first part answered, and where it left the state.
    pub Runs-bind_at :
        {m : Exec World E A} (f : A → Exec World E B)
        → Runs x state ambient given m
        → ((w : World) (a : A)
            → (m w).0 ≡ ok a
            → Steps x state ambient given (m w).1 (f a (m w).1).1)
        → Runs x state ambient given (m >>= f)
    unfolding ◌>>=◌
    Runs-bind_at {m} f k l = record { at = λ w. Steps-continue (m w).0 f w (m w).1 (k.at w) (l w) }

    pub Runs-bind :
        {m : Exec World E A} {f : A → Exec World E B}
        → Runs x state ambient given m
        → ((a : A) → Runs x state ambient given (f a))
        → Runs x state ambient given (m >>= f)
    Runs-bind {m} {f} k l = Runs-bind_at {m = m} f k (λ w a _. (l a).at (m w).1)

    -- The rest of a block may use what its checks have shown.
    pub Runs-lift :
        {r : Result E A} {f : A → Exec World E B}
        → ((a : A) → r ≡ ok a → Runs x state ambient given (f a))
        → Runs x state ambient given (lift r >>= f)
    Runs-lift {r} {f} k = Runs-bind_at {m = lift r} f (Runs-end r) (λ w a e. (k a e).at w)

    -- The same from one state.
    pub Steps-lift :
        {r : Result E A} (f : A → Exec World E B) (w : World)
        → ((a : A) → r ≡ ok a → Steps x state ambient given w (f a w).1)
        → Steps x state ambient given w ((lift r >>= f) w).1
    unfolding ◌>>=◌
    Steps-lift {r} f w k = Steps-continue r f w w here k

    -- The same, after a first part that runs from that state.
    pub Steps-then :
        (m : Exec World E A) (f : A → Exec World E B) (w : World)
        → Steps x state ambient given w (m w).1
        → ((a : A) → (m w).0 ≡ ok a → Steps x state ambient given (m w).1 (f a (m w).1).1)
        → Steps x state ambient given w ((m >>= f) w).1
    unfolding ◌>>=◌
    Steps-then m f w before k = Steps-continue (m w).0 f w (m w).1 before k

    pub Steps-bind :
        (m : Exec World E A) (f : A → Exec World E B) (w : World)
        → Steps x state ambient given w (m w).1
        → ((a : A) → Runs x state ambient given (f a))
        → Steps x state ambient given w ((m >>= f) w).1
    unfolding ◌>>=◌
    Steps-bind m f w before k = Steps-continue (m w).0 f w (m w).1 before (λ a _. (k a).at (m w).1)

  pub Runs-lift_err :
      {E F A B : Type 0} (g : E → F) {r : Result E A} {f : A → Exec World F B}
      → ((a : A) → r ≡ ok a → Runs x state ambient given (f a))
      → Runs x state ambient given (lift_err g r >>= f)
  Runs-lift_err g {r} {f} k = Runs-lift {r = relabel g r} {f = f} (λ a e. k a (relabel-eq-ok g r e))

  module _ {E A : Type 0} where
    pub Runs-accounts :
        (m : Exec (Store User) E A)
        → ((s : Store User) → AccountsWrite x state ambient given s.docs (m s).1.docs)
        → Runs x state ambient given (in_users m)
    Runs-accounts m k = record { at = λ w. next here (Step.accounts w (m w.users).1 (k w.users)) }

    pub Runs-roles :
        (m : Exec (Store Role) E A)
        → ((s : Store Role) → RolesWrite x state ambient s.docs (m s).1.docs)
        → Runs x state ambient given (in_roles m)
    Runs-roles m k = record { at = λ w. next here (Step.roles w (m w.roles).1 (k w.roles)) }

    pub Runs-settings :
        (m : Exec (Store GlobalSettings) E A)
        → ((s : Store GlobalSettings) → ((m s).1.docs ≡ s.docs) ⊎ IsAdministrator x state ambient)
        → Runs x state ambient given (in_settings m)
    Runs-settings m k = record {
      at = λ w. next here (Step.settings w (m w.settings).1 (k w.settings));
    }

    pub Runs-login_events :
        (m : Exec (Store LoginEvent) E A) → Runs x state ambient given (in_login_events m)
    Runs-login_events m = record { at = λ w. next here (Step.login_events w (m w.login_events).1) }

    pub Runs-reset_tokens :
        (m : Exec (Store ResetToken) E A)
        → ((s : Store ResetToken) → ResetTokensWrite x state ambient s.docs (m s).1.docs)
        → Runs x state ambient given (in_reset_tokens m)
    Runs-reset_tokens m k = record {
      at = λ w. next here (Step.reset_tokens w (m w.reset_tokens).1 (k w.reset_tokens));
    }

    pub Runs-refresh_tokens :
        (m : Exec (Store RefreshToken) E A)
        → ((s : Store RefreshToken) → RefreshTokensWrite x state ambient s.docs (m s).1.docs)
        → Runs x state ambient given (in_refresh_tokens m)
    Runs-refresh_tokens m k = record {
      at = λ w. next here (Step.refresh_tokens w (m w.refresh_tokens).1 (k w.refresh_tokens));
    }

  module _ (now : ℕ) (key : String) where
    pub Runs-enforce_login : Runs x state ambient given (enforce_login x.governor now key)
    unfolding enforce_login
    Runs-enforce_login = record {
      at = λ w. next here (
          Step.limits w (enforce x.governor now key w.login_limiter).1 w.forgot_limiter
            w.refresh_limiter);
    }

    pub Runs-enforce_forgot : Runs x state ambient given (enforce_forgot x.governor now key)
    unfolding enforce_forgot
    Runs-enforce_forgot = record {
      at = λ w. next here (
          Step.limits w w.login_limiter (enforce x.governor now key w.forgot_limiter).1
            w.refresh_limiter);
    }

    pub Runs-enforce_refresh : Runs x state ambient given (enforce_refresh x.governor now key)
    unfolding enforce_refresh
    Runs-enforce_refresh = record {
      at = λ w. next here (
          Step.limits w w.login_limiter w.forgot_limiter
            (enforce x.governor now key w.refresh_limiter).1);
    }

  pub Runs-send_email : (email : Email) → Runs x state ambient given (send_email email)
  unfolding send_email
  Runs-send_email email = record { at = λ w. next here (Step.mails w email) }

  publish-Steps :
      (connected : Bool) (event : UserDeletedEvent) (w : World)
      → IsAdministrator x state ambient
      → Steps x state ambient given w
          (if connected then record w { published = event ∷ w.published } else w)
  publish-Steps true event w right = next here (Step.publishes w event right)
  publish-Steps false event w right = here

  pub Runs-publish_user_deleted :
      (event : UserDeletedEvent)
      → IsAdministrator x state ambient
      → Runs x state ambient given (publish_user_deleted state event)
  unfolding publish_user_deleted
  Runs-publish_user_deleted event right = record {
    at = λ w. publish-Steps state.relay_connected event w right;
  }

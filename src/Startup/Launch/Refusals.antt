-- ===== src/Startup/Launch/Refusals.antt =====
-- The starts of main.rs that end before the catalogue of roles is made sure of.
use ch_api_authenticator.Base.{sym}
use ch_api_authenticator.Startup.Launch.Indexes.{IsBegun, IsBegun-refl, create_indexes-IsBegun}
use ch_api_authenticator.Base.{subst}
use ch_api_authenticator.Startup.{seed_admin}
use ch_api_authenticator.Exec.{map_err, pure, ◌>>◌}
use ch_api_authenticator.Repository.Roles.{ensure_portal_roles}
use ch_api_authenticator.Startup.Launch.{all_indexes, create_indexes}
use ch_api_authenticator.State.{AppState, in_roles}
use ch_api_authenticator.Services.Relay.{from_settings}
use ch_api_authenticator.Startup.Launch.{
  Host, LaunchError, index_creation, invalid_configuration, invalid_relay, launch, missive_client,
  mongodb_unreachable, portal_roles, with_limiters,
}
use ch_api_authenticator.Exec.{Exec, Result, continue, err, ok, relabel}
use ch_api_authenticator.Config.{Config, ConfigError, Environ, load}
use ch_api_authenticator.Base.{Bool, arith, false, refl, true, ◌≡◌}
use ch_api_authenticator.State.{Ambient, Platform, World}
use ch_api_authenticator.Exec.{◌>>=◌}

-- An error of the configuration, of a connection or of an index.
abbrev pub is_early : LaunchError → Bool
is_early (invalid_configuration e) = true
is_early missive_client = true
is_early mongodb_unreachable = true
is_early (invalid_relay e) = true
is_early (index_creation e) = true
is_early (portal_roles e) = false
is_early (LaunchError.seed e) = false

-- The same world but for the limiters, which are made anew at each start, and for the first of the
-- indexes that a start asks for.
abbrev pub IsUnwritten : World → World → Type 0
IsUnwritten v w =
    (w ≡ record v {
      login_limiter = w.login_limiter;
      forgot_limiter = w.forgot_limiter;
      refresh_limiter = w.refresh_limiter;
      indexes = w.indexes;
    })
    × IsBegun all_indexes v.indexes w.indexes

err_injective : {E A : Type 0} (r : Result E A) {a b : E} → r ≡ err a → r ≡ err b → a ≡ b
err_injective r h k = cc

module _ {A : Type 0} where
  abbrev IsLate : Exec World LaunchError A → Type 0
  IsLate m = (w : World) (e : LaunchError) → (m w).0 ≡ err e → is_early e ≡ false

  abbrev IsQuiet : Exec World LaunchError A → Type 0
  IsQuiet m =
      (w : World) (e : LaunchError) → (m w).0 ≡ err e → is_early e ≡ true → IsUnwritten w (m w).1

  IsLate-IsQuiet : (m : Exec World LaunchError A) → IsLate m → IsQuiet m
  IsLate-IsQuiet m late w e failed early = absurd (ground (arith, late w e failed))

  pure-IsLate : (a : A) → IsLate (pure a)
  pure-IsLate a w e failed = cc

  continue-IsLate :
      {E B : Type 0} (f : E → LaunchError) (r : Result E B) (k : B → Exec World LaunchError A)
      → ((e : E) → is_early (f e) ≡ false)
      → ((b : B) → IsLate (k b))
      → IsLate (continue (relabel f r) k)
  continue-IsLate f (ok b) k late rest w e failed = rest b w e failed
  continue-IsLate f (err own) k late rest w e failed =
      subst (λ d. is_early d ≡ false) (err_injective _ refl failed) (late own)

  bind-IsLate :
      {E B : Type 0} (f : E → LaunchError) (m : Exec World E B) (k : B → Exec World LaunchError A)
      → ((e : E) → is_early (f e) ≡ false)
      → ((b : B) → IsLate (k b))
      → IsLate (map_err f m >>= k)
  unfolding ◌>>=◌
  bind-IsLate f m k late rest w e failed = continue-IsLate f (m w).0 k late rest (m w).1 e failed

  continue-IsQuiet :
      {B : Type 0} (r : Result LaunchError B) (k : B → Exec World LaunchError A)
      → ((b : B) → IsQuiet (k b))
      → IsQuiet (continue r k)
  continue-IsQuiet (ok b) k rest w e failed early = rest b w e failed early
  continue-IsQuiet (err own) k rest w e failed early = (refl, IsBegun-refl all_indexes w.indexes)

  continue-settled :
      {B : Type 0} (r : Result LaunchError B) (k : B → Exec World LaunchError A)
      → ((b : B) → IsLate (k b))
      → (w : World) (e : LaunchError) → (continue r k w).0 ≡ err e
      → is_early e ≡ true
      → (continue r k w).1 ≡ w
  continue-settled (ok b) k late w e failed early = absurd (ground (arith, late b w e failed))
  continue-settled (err own) k late w e failed early = refl

module _ (x : Platform) (host : Host) (ambient : Ambient) where
  -- From the catalogue on, a start fails with no early error.
  catalogue-IsLate :
      (state : AppState)
      → IsLate (do
        map_err portal_roles (in_roles (ensure_portal_roles x.roles (ambient.clock 0)))
        map_err LaunchError.seed (seed_admin x ambient state)
        pure state)
  catalogue-IsLate state =
      bind-IsLate portal_roles _ _ (λ own. refl)
        λ _. bind-IsLate LaunchError.seed _ _ (λ own. refl) λ _. pure-IsLate state

  -- A start that fails on its configuration, a connection or an index has written no document: it
  -- leaves at most new limiters, and the first of the indexes that it asks for, after those that were
  -- there.
  pub launch-IsUnwritten :
      (extracted : Result ConfigError Config) (env : Environ) (w : World) (e : LaunchError)
      → (launch x host ambient extracted env w).0 ≡ err e
      → is_early e ≡ true
      → IsUnwritten w (launch x host ambient extracted env w).1
  unfolding launch ◌>>=◌ with_limiters
  launch-IsUnwritten extracted env w e failed early =
      continue-IsQuiet (relabel invalid_configuration (load extracted env)) _
        (λ settings. continue-IsQuiet host.build_http _ λ _.
          continue-IsQuiet (host.connect settings.secrets.mongo_uri) _ λ _.
            continue-IsQuiet
              (relabel invalid_relay
                (from_settings host.rs256 host.now settings.config.relay settings.secrets))
              _
              λ relay. λ v e failed early.
                subst (IsUnwritten v)
                  (sym (
                    continue-settled
                      (relabel index_creation (create_indexes host all_indexes v.indexes).0) _
                      (λ _. catalogue-IsLate _)
                      (record (with_limiters x settings.rate_limit v) {
                        indexes = (create_indexes host all_indexes v.indexes).1;
                      })
                      e failed early))
                  (refl, create_indexes-IsBegun host all_indexes v.indexes))
        w e failed early

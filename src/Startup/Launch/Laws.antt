-- ===== src/Startup/Launch/Laws.antt =====
-- A start of main.rs that reaches the point where the service listens.
use mathlib.Core.List
use ch_api_authenticator.Startup.Keeps.{seed_admin-Keeps}
use ch_api_authenticator.Startup.{seed_admin}
use ch_api_authenticator.Startup.Launch.Indexes.{create_indexes-ok}
use ch_api_authenticator.Startup.Laws.{seed_admin-ok}
use ch_api_authenticator.Exec.Laws.{ok_injective, relabel-eq-ok}
use ch_api_authenticator.Base.{ap, subst, sym, ◌∙◌}
use ch_api_authenticator.Base.{inl, inr, refl}
use ch_api_authenticator.Services.Relay.{from_settings-connected, from_settings-disabled}
use ch_api_authenticator.Startup.Launch.{is_connected}
use ch_api_authenticator.Repository.Users.{with_email, with_password}
use ch_api_authenticator.Exec.Laws.{invert_run}
use ch_api_authenticator.Exec.{Result, ok}
use ch_api_authenticator.Services.Relay.{RelayPublisher, connected, from_settings}
use ch_api_authenticator.Startup.Laws.{IsSeeded, account_of}
use ch_api_authenticator.Startup.Launch.{Host, all_indexes, launch, new_state, with_limiters}
use ch_api_authenticator.Config.{Config, ConfigError, Environ, Settings, load}
use ch_api_authenticator.Base.{Bool, String, false, some, true, ◌≡◌, ◌⊎◌}
use ch_api_authenticator.State.{Ambient, AppState, Platform, World}
use ch_api_authenticator.Services.Relay
use ch_api_authenticator.Services.Jwt

module _ (x : Platform) (host : Host) (ambient : Ambient) where
  -- Off where the configuration says so, and otherwise connected, which takes a key.
  pub IsRelay : Settings → Bool → Type 0
  IsRelay settings on =
      ((settings.config.relay.enabled ≡ false) × (on ≡ false))
      ⊎ ((settings.config.relay.enabled ≡ true)
          × (on ≡ true)
          × (key : String) × (settings.secrets.relay_jwt_private_key ≡ some key))

  -- What the start leaves behind: the state that requests are served under, and the accounts.
  pub record IsLaunched (extracted : Result ConfigError Config) (env : Environ) (email : String)
      (password : String) (v : World) (state : AppState) (w : World) : Type 0 where
    pub loaded : load extracted env ≡ ok state.settings
    pub keyed : state.jwt ≡ Jwt.new state.settings.secrets.jwt_secret state.settings.config.token
    pub relayed : IsRelay state.settings state.relay_connected
    pub indexed : w.indexes ≡ List.◌++◌ v.indexes all_indexes
    pub seeded :
        IsSeeded x ambient email password (account_of x ambient email v) v.users.docs w.users.docs

  from_settings-IsRelay :
      (settings : Settings) (publisher : RelayPublisher)
      → from_settings host.rs256 host.now settings.config.relay settings.secrets ≡ ok publisher
      → IsRelay settings (is_connected publisher)
  unfolding IsRelay
  from_settings-IsRelay settings Relay.disabled e =
      inl
        (from_settings-disabled host.rs256 host.now settings.config.relay settings.secrets e, refl)
  from_settings-IsRelay settings (Relay.connected options) e =
      let (on, key, _, key_at, _, _) =
        from_settings-connected host.rs256 host.now settings.config.relay settings.secrets options
          e in
      inr (on, refl, key, key_at)

  -- The seed makes no index.
  seed_admin-indexes :
      (state : AppState) (w : World) → (seed_admin x ambient state w).1.indexes ≡ w.indexes
  seed_admin-indexes state w =
      seed_admin-Keeps x ambient (λ accounts made. made ≡ w.indexes)
        (record {
          by_insert = λ email password hash id before made hashed free held. held;
          by_roles = λ now id list s made held. held;
        })
        state w refl

  -- A start that succeeds has made every index, after those that were there.
  pub launch-indexes :
      (extracted : Result ConfigError Config) (env : Environ) (w : World) (state : AppState)
      → (launch x host ambient extracted env w).0 ≡ ok state
      → (launch x host ambient extracted env w).1.indexes ≡ List.◌++◌ w.indexes all_indexes
  unfolding launch with_limiters
  launch-indexes extracted env w state e = invert_run _ _ _ e λ _ _ r₁ e₁.
      invert_run _ _ _ e₁ λ _ _ r₂ e₂. invert_run _ _ _ e₂ λ _ _ r₃ e₃.
        invert_run _ _ _ e₃ λ _ _ r₄ e₄. invert_run _ _ _ e₄ λ _ _ r₅ e₅.
          invert_run _ _ _ e₅ λ _ indexed r₆ e₆. invert_run _ _ _ e₆ λ _ _ r₇ e₇.
            invert_run _ _ _ e₇ λ _ _ r₈ e₈.
              ap (λ r. r.1.indexes) (r₁ ∙ r₂ ∙ r₃ ∙ r₄ ∙ r₅ ∙ r₆ ∙ r₇ ∙ r₈)
              ∙ seed_admin-indexes _ _
              ∙ create_indexes-ok host all_indexes w.indexes (relabel-eq-ok _ _ indexed)

  -- A start that succeeds, with an administrator's email and password in its settings: the settings
  -- are those of the configuration and the environment, tokens are signed with their secret, the
  -- relay is connected exactly if it is enabled, which takes a key, every index was created, and
  -- the account of that email got the administrator's role if it had it not, or, where there was none,
  -- an administrator's was inserted with a hash of that password: it was added unless the insertion
  -- answered that the email or the id is taken.
  pub launch-IsLaunched :
      (extracted : Result ConfigError Config) (env : Environ) (email password : String) (w : World)
      (state : AppState)
      → (launch x host ambient extracted env w).0 ≡ ok state
      → state.settings.secrets.admin_email ≡ some email
      → state.settings.secrets.admin_password ≡ some password
      → IsLaunched extracted env email password w state (launch x host ambient extracted env w).1
  unfolding launch new_state with_limiters
  launch-IsLaunched extracted env email password w state e with_email with_password =
      invert_run _ _ _ e λ settings loaded r₁ e₁. invert_run _ _ _ e₁ λ _ _ r₂ e₂.
        invert_run _ _ _ e₂ λ _ _ r₃ e₃. invert_run _ _ _ e₃ λ relay relayed r₄ e₄.
          invert_run _ _ _ e₄ λ _ _ r₅ e₅. invert_run _ _ _ e₅ λ _ indexed r₆ e₆.
            invert_run _ _ _ e₆ λ _ roles r₇ e₇. invert_run _ _ _ e₇ λ _ seeds r₈ e₈.
              let same = ok_injective _ _ _ refl e₈ in
              subst
                (λ s.
                  IsLaunched extracted env email password w s
                    (launch x host ambient extracted env w).1)
                same
                (record {
                  loaded = relabel-eq-ok _ _ loaded;
                  keyed = refl;
                  relayed = from_settings-IsRelay settings relay (relabel-eq-ok _ _ relayed);
                  indexed = launch-indexes extracted env w state e;
                  seeded =
                      subst
                        (IsSeeded x ambient email password (account_of x ambient email w)
                          w.users.docs)
                        (ap (λ r. r.1.users.docs) (sym (r₁ ∙ r₂ ∙ r₃ ∙ r₄ ∙ r₅ ∙ r₆ ∙ r₇ ∙ r₈)))
                        (seed_admin-ok x ambient _ email password _
                          (subst (λ s. s.settings.secrets.admin_email ≡ some email) (sym same)
                            with_email)
                          (subst (λ s. s.settings.secrets.admin_password ≡ some password) (sym same)
                            with_password)
                          (relabel-eq-ok _ _ seeds));
                })

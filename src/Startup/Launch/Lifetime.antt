-- ===== src/Startup/Launch/Lifetime.antt =====
-- The accounts from an empty database on, over every start of the service and what it then serves.
use ch_api_authenticator.Startup.Launch.Accounts.{
  IsSound-IsSeedKept, conflict_free-Distinct, launch-Keeps, unique-IsSeedKept,
}
use ch_api_authenticator.Service.History.Accounts.{accounts_stay_unique}
use ch_api_authenticator.Repository.Users.{same_account}
use ch_api_authenticator.Exec.Laws.{relabel-eq-ok}
use ch_api_authenticator.Base.{map}
use ch_api_authenticator.Startup.Launch.Laws.{launch-indexes}
use ch_api_authenticator.Startup.Launch.Indexes.{create_indexes-ok}
use ch_api_authenticator.Mongo.Unique.{conflict_free}
use ch_api_authenticator.Base.Lists.{All, Distinct}
use ch_api_authenticator.Service.History.Accounts.{
  AccountsAreSound, AccountsAreUnique, IsSound, accounts_stay_sound,
}
use ch_api_authenticator.Service.Policy.{Step}
use ch_api_authenticator.Startup.Keeps.{seed_admin-Keeps}
use ch_api_authenticator.Startup.{seed_admin}
use ch_api_authenticator.Repository.Roles.{ensure_portal_roles}
use ch_api_authenticator.Startup.Launch.Indexes.{create_indexes-IsBegun}
use ch_api_authenticator.Exec.{Result, map_err, ok, pure, ◌>>◌}
use ch_api_authenticator.Base.{List, String, [], inl, inr, refl, subst, sym, true, ◌∷◌, ◌≡◌, ◌⊎◌}
use ch_api_authenticator.Exec.Keeps.{Keeps, bind-Keeps, bind-both}
use ch_api_authenticator.Startup.Launch.{
  Host, LaunchError, all_indexes, create_indexes, launch, portal_roles, with_limiters,
}
use ch_api_authenticator.Service.History.{History, History-keeps}
use ch_api_authenticator.Service.Policy.{Given}
use ch_api_authenticator.Config.{Config, ConfigError, Environ}
use ch_api_authenticator.Repository.Indexes.{Collection, IndexModel}
use ch_api_authenticator.State.{Ambient, AppState, Platform, World, in_roles}
use mathlib.Core.List.{◌++◌}
use ch_api_authenticator.Repository.Indexes
use ch_api_authenticator.Repository.Users

-- A unique index on the key of the collection is there.
abbrev pub IsUniqueOn : Collection → String → List IndexModel → Type 0
IsUniqueOn collection key [] = ⊥
IsUniqueOn collection key (index ∷ made) =
    ((index.collection ≡ collection) × (index.key ≡ key) × (index.unique ≡ true))
    ⊎ IsUniqueOn collection key made

IsUniqueOn-before :
    (collection : Collection) (key : String) (xs ys : List IndexModel)
    → IsUniqueOn collection key xs
    → IsUniqueOn collection key (xs ++ ys)
IsUniqueOn-before collection key [] ys h = absurd h
IsUniqueOn-before collection key (x ∷ xs) ys (inl here) = inl here
IsUniqueOn-before collection key (x ∷ xs) ys (inr later) =
    inr (IsUniqueOn-before collection key xs ys later)

IsUniqueOn-after :
    (collection : Collection) (key : String) (xs ys : List IndexModel)
    → IsUniqueOn collection key ys
    → IsUniqueOn collection key (xs ++ ys)
IsUniqueOn-after collection key [] ys h = h
IsUniqueOn-after collection key (x ∷ xs) ys h = inr (IsUniqueOn-after collection key xs ys h)

abbrev HasEmailIndex : World → Type 0
HasEmailIndex w = IsUniqueOn Indexes.users "email" w.indexes

-- No account is stored unless the unique index on the emails is there.
abbrev pub IsGuarded : World → Type 0
IsGuarded w = (w.users.docs ≡ []) ⊎ HasEmailIndex w

made-IsUniqueOn :
    (before after : List IndexModel)
    → after ≡ before ++ all_indexes
    → IsUniqueOn Indexes.users "email" after
made-IsUniqueOn before after e =
    subst (IsUniqueOn Indexes.users "email") (sym e)
      (IsUniqueOn-after Indexes.users "email" before all_indexes (inl (refl, refl, refl)))

module _ (x : Platform) (host : Host) (ambient : Ambient) where
  seed-HasEmailIndex :
      (state : AppState)
      → Keeps HasEmailIndex (do
        map_err portal_roles (in_roles (ensure_portal_roles x.roles (ambient.clock 0)))
        map_err LaunchError.seed (seed_admin x ambient state)
        pure state)
  seed-HasEmailIndex state =
      bind-Keeps _ _ _ (λ w held. held)
        λ _ _ _.
          bind-Keeps _ _ _
            (seed_admin-Keeps x ambient (λ ds made. IsUniqueOn Indexes.users "email" made)
              (record {
                by_insert = λ email password hash id before made hashed free held. held;
                by_roles = λ now id list s made held. held;
              })
              state)
            λ _ _ _ w held. held

  begun-IsGuarded :
      (w : World)
      → IsGuarded w
      → IsGuarded (record w { indexes = (create_indexes host all_indexes w.indexes).1 })
  begun-IsGuarded w (inl none_yet) = inl none_yet
  begun-IsGuarded w (inr there) =
      let (made, _, _, after) = create_indexes-IsBegun host all_indexes w.indexes in
      inr (
        subst (IsUniqueOn Indexes.users "email") (sym after)
          (IsUniqueOn-before Indexes.users "email" w.indexes made there))

  -- Every start keeps it: the accounts are seeded after the indexes.
  launch-IsGuarded :
      (extracted : Result ConfigError Config) (env : Environ)
      → Keeps IsGuarded (launch x host ambient extracted env)
  unfolding launch with_limiters
  launch-IsGuarded extracted env =
      bind-Keeps _ _ _ (λ w held. held)
        λ settings _ _.
          bind-Keeps _ _ _ (λ w held. held)
            λ _ _ _.
              bind-Keeps _ _ _ (λ w held. held)
                λ _ _ _.
                  bind-Keeps _ _ _ (λ w held. held)
                    λ relay _ _.
                      bind-Keeps _ _ _ (λ w held. held)
                        λ _ _ _ w held.
                          bind-both IsGuarded _ _ w (λ _ _. begun-IsGuarded w held)
                            λ _ made. inr (
                              seed-HasEmailIndex _ _ (
                                made-IsUniqueOn w.indexes _ (
                                  create_indexes-ok host all_indexes w.indexes
                                    (relabel-eq-ok _ _ made))))

  -- A start that succeeds ends with it, whatever it found.
  launched-HasEmailIndex :
      (extracted : Result ConfigError Config) (env : Environ) (w : World) (state : AppState)
      → (launch x host ambient extracted env w).0 ≡ ok state
      → HasEmailIndex (launch x host ambient extracted env w).1
  launched-HasEmailIndex extracted env w state e =
      made-IsUniqueOn w.indexes _ (launch-indexes x host ambient extracted env w state e)

module _ (x : Platform) (state : AppState) (Allowed : Ambient → Type 0) where
  Step-indexes :
      (ambient : Ambient) (given : Given) (v w : World)
      → Step x state ambient given v w
      → w.indexes ≡ v.indexes
  Step-indexes ambient given v w (Step.accounts u s write) = refl
  Step-indexes ambient given v w (Step.roles u s write) = refl
  Step-indexes ambient given v w (Step.settings u s right) = refl
  Step-indexes ambient given v w (Step.login_events u s) = refl
  Step-indexes ambient given v w (Step.reset_tokens u s write) = refl
  Step-indexes ambient given v w (Step.refresh_tokens u s write) = refl
  Step-indexes ambient given v w (Step.limits u a b c) = refl
  Step-indexes ambient given v w (Step.mails u email) = refl
  Step-indexes ambient given v w (Step.publishes u event right) = refl

  -- What is served makes no index and drops none.
  History-HasEmailIndex :
      (v w : World) → History x state Allowed v w → HasEmailIndex v → HasEmailIndex w
  History-HasEmailIndex v w history held =
      History-keeps HasEmailIndex
        (record {
          by_step = λ ambient given v w a step held.
              subst (IsUniqueOn Indexes.users "email") (sym (Step-indexes ambient given v w step))
                held;
          by_refresh = λ p seed w held. held;
          by_reset = λ p seed w held. held;
        })
        history held

module _ (x : Platform) (Allowed : Ambient → Type 0) where
  -- The world over starts of the service: one that fails ends there, and one that succeeds serves
  -- requests under the state that it made.
  pub data Lifetime (v : World) : World → Type 0 where
    created : Lifetime v v
    fails :
        {u : World} (host : Host) (ambient : Ambient) (extracted : Result ConfigError Config)
        (env : Environ)
        → Lifetime v u
        → Lifetime v (launch x host ambient extracted env u).1
    runs :
        {u w : World} (host : Host) (ambient : Ambient) (extracted : Result ConfigError Config)
        (env : Environ) (state : AppState)
        → (launch x host ambient extracted env u).0 ≡ ok state
        → History x state Allowed (launch x host ambient extracted env u).1 w
        → Lifetime v u
        → Lifetime v w

  launch-good :
      (host : Host) (ambient : Ambient) (extracted : Result ConfigError Config) (env : Environ)
      (w : World)
      → AccountsAreUnique w × AccountsAreSound x w
      → AccountsAreUnique (launch x host ambient extracted env w).1
        × AccountsAreSound x (launch x host ambient extracted env w).1
  launch-good host ambient extracted env w (unique, sound) = (
    launch-Keeps x ambient host _ (unique-IsSeedKept x ambient) extracted env w unique,
    launch-Keeps x ambient host _ (IsSound-IsSeedKept x ambient) extracted env w sound,
  )

  lifetime-keeps :
      {v w : World}
      → Lifetime v w
      → AccountsAreUnique v × AccountsAreSound x v
      → AccountsAreUnique w × AccountsAreSound x w
  lifetime-keeps created good = good
  lifetime-keeps (fails {u} host ambient extracted env life) good =
      launch-good host ambient extracted env u (lifetime-keeps life good)
  lifetime-keeps {v} {w} (runs {u} host ambient extracted env state e history life) good =
      let (unique, sound) = launch-good host ambient extracted env u (lifetime-keeps life good) in
      (
        accounts_stay_unique x state Allowed _ w history unique,
        accounts_stay_sound x state Allowed _ w history sound,
      )

  lifetime-IsGuarded : {v w : World} → Lifetime v w → IsGuarded v → IsGuarded w
  lifetime-IsGuarded created held = held
  lifetime-IsGuarded (fails {u} host ambient extracted env life) held =
      launch-IsGuarded x host ambient extracted env u (lifetime-IsGuarded life held)
  lifetime-IsGuarded {v} {w} (runs {u} host ambient extracted env state e history life) held = inr (
      History-HasEmailIndex x state Allowed _ w history
        (launched-HasEmailIndex x host ambient extracted env u state e))

  -- From a database with no account on, whatever starts of the service succeed or fail, under any
  -- configurations, and whatever requests they serve: no account is stored unless the unique index
  -- on the email was made first, no email occurs twice as far as the server keeps to the unique
  -- indexes that the service asks for, each password is a hash of some password, each email is in
  -- normal form, and no account is restricted to an empty list of addresses.
  pub lifetime_accounts :
      (v w : World)
      → v.users.docs ≡ []
      → Lifetime v w
      → IsGuarded w × Distinct (map (λ d. d.email) w.users.docs) × AccountsAreSound x w
  lifetime_accounts v w empty life =
      let (unique, sound) = lifetime-keeps life (
        subst (λ ds. conflict_free Users.same_account ds ≡ true) (sym empty) refl,
        subst (All (IsSound x)) (sym empty) tt,
      ) in
      (lifetime-IsGuarded life (inl empty), conflict_free-Distinct w.users.docs unique, sound)

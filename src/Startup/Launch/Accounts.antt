-- ===== src/Startup/Launch/Accounts.antt =====
-- What a start keeps of the accounts, and the emails of accounts that do not conflict.
use ch_api_authenticator.Services.Crypto.Crates.{hash}
use ch_api_authenticator.Base.{arith, eq_iff, false, map, ◌∷◌}
use ch_api_authenticator.Base.Lists.{Distinct, any, contains}
use ch_api_authenticator.Repository.Users.Calls.{update-conflict_free, update-docs}
use ch_api_authenticator.Repository.Users.Unique.{same_account-sym}
use ch_api_authenticator.Repository.Users.{has_id, identify, same_account, with_roles}
use ch_api_authenticator.Mongo.Unique.{conflict_free, conflict_free-append}
use ch_api_authenticator.Startup.{administrator_of}
use ch_api_authenticator.Mongo.{Store}
use ch_api_authenticator.Exec.{Result}
use ch_api_authenticator.Base.{List, String, [], inl, inr, refl, some, subst, sym, true, ◌≡◌}
use ch_api_authenticator.Exec.Keeps.{Keeps, bind-Keeps}
use ch_api_authenticator.Startup.Keeps.{IsSeedKept, seed_admin-Keeps}
use ch_api_authenticator.Startup.Launch.{Host, launch, with_limiters}
use ch_api_authenticator.Domain.User.{DateTime, ObjectId, User, new}
use ch_api_authenticator.Config.{Config, ConfigError, Environ}
use ch_api_authenticator.State.{Ambient, Platform}
use ch_api_authenticator.Mongo.Docs.{All-modify_first}
use ch_api_authenticator.Base.Lists.{All, All-append}
use ch_api_authenticator.Service.History.Accounts.{IsSound}
use ch_api_authenticator.Repository.Users

module _ (x : Platform) (ambient : Ambient) where
  pub unique-IsSeedKept :
      IsSeedKept x ambient (λ ds made. conflict_free Users.same_account ds ≡ true)
  unfolding Users.update_roles
  unique-IsSeedKept = record {
    by_insert = λ email password hash id before made hashed free held.
        conflict_free-append Users.same_account same_account-sym _ before free held;
    by_roles = λ now id roles s made held.
        update-conflict_free x.users id (Users.with_roles now roles) s held;
  }

  administrator_of-IsSound :
      (email password hash : String) (id : ObjectId)
      → x.crypto.hash_password ambient.salt password ≡ some hash
      → IsSound x (Users.identify id (administrator_of x ambient email hash))
  unfolding administrator_of new
  administrator_of-IsSound email password hash id hashed = record {
    hashed = (ambient.salt, password, hashed);
    normal = (email, refl);
    reachable = refl;
  }

  with_roles-IsSound :
      (now : DateTime) (roles : List String) (user : User)
      → IsSound x user
      → IsSound x (Users.with_roles now roles user)
  with_roles-IsSound now roles user s = record {
    hashed = s.hashed;
    normal = s.normal;
    reachable = s.reachable;
  }

  roles-IsSound :
      (now : DateTime) (id : ObjectId) (roles : List String) (s : Store User)
      → All (IsSound x) s.docs
      → All (IsSound x) (Users.update_roles x.users now id roles s).1.docs
  unfolding Users.update_roles
  roles-IsSound now id roles s sound =
      elim (update-docs x.users id (Users.with_roles now roles) s) [
        | inl same ↦ subst (All (IsSound x)) (sym same) sound
        | inr wrote ↦ subst (All (IsSound x)) (sym wrote) (
            All-modify_first (IsSound x) (Users.has_id id) _ s.docs (with_roles-IsSound now roles)
              sound)
      ]

  pub IsSound-IsSeedKept : IsSeedKept x ambient (λ ds made. All (IsSound x) ds)
  IsSound-IsSeedKept = record {
    by_insert = λ email password hash id before made hashed free held.
        All-append (IsSound x) before _ held
          (administrator_of-IsSound email password hash id hashed, tt);
    by_roles = λ now id roles s made held. roles-IsSound now id roles s held;
  }

  module _ (host : Host) (P : List User → Type 0) (k : IsSeedKept x ambient (λ ds made. P ds)) where
    pub launch-Keeps :
        (extracted : Result ConfigError Config) (env : Environ)
        → Keeps (λ w. P w.users.docs) (launch x host ambient extracted env)
    unfolding launch with_limiters
    launch-Keeps extracted env =
        bind-Keeps _ _ _ (λ w held. held)
          λ settings _ _.
            bind-Keeps _ _ _ (λ w held. held)
              λ _ _ _.
                bind-Keeps _ _ _ (λ w held. held)
                  λ _ _ _.
                    bind-Keeps _ _ _ (λ w held. held)
                      λ relay _ _.
                        bind-Keeps _ _ _ (λ w held. held)
                          λ _ _ _.
                            bind-Keeps _ _ _ (λ w held. held)
                              λ _ _ _.
                                bind-Keeps _ _ _ (λ w held. held)
                                  λ _ _ _.
                                    bind-Keeps _ _ _
                                      (seed_admin-Keeps x ambient (λ ds made. P ds) k _)
                                      λ _ _ _ w held. held

-- No two accounts that no index and no id tells apart: no email occurs twice.
any-emails :
    (user : User) (ds : List User)
    → any (Users.same_account user) ds ≡ false
    → contains user.email (map (λ d. d.email) ds) ≡ false
any-emails user [] h = refl
any-emails user (d ∷ ds) h =
    ground (arith, any-emails user ds, eq_iff d.email user.email, eq_iff user.email d.email)

pub conflict_free-Distinct :
    (ds : List User) → conflict_free Users.same_account ds ≡ true → Distinct (map (λ d. d.email) ds)
conflict_free-Distinct [] h = tt
conflict_free-Distinct (d ∷ ds) h =
    (any-emails d ds (ground arith), conflict_free-Distinct ds (ground arith))

-- ===== src/Startup/Keeps.antt =====
-- What the seed of the administrator keeps of the accounts, whether it succeeds or fails.
use ch_api_authenticator.Services.Crypto.Crates.{hash}
use ch_api_authenticator.Repository.Indexes.{IndexModel}
use ch_api_authenticator.Startup.{seed_found}
use ch_api_authenticator.Startup.{seed_with}
use mathlib.Core.List.{◌++◌}
use ch_api_authenticator.Exec.Laws.{ok_or-eq-ok}
use ch_api_authenticator.Repository.Users.{identify, same_account}
use ch_api_authenticator.Repository.Users.Calls.{find_by_email-docs}
use ch_api_authenticator.Base.Lists.{any, contains}
use ch_api_authenticator.Startup.{administrator_of, create_administrator, promote, seed_admin}
use ch_api_authenticator.Middleware.Auth.{admin_role}
use ch_api_authenticator.Mongo.{Store}
use ch_api_authenticator.Exec.Keeps.{Keeps, bind-Keeps}
use ch_api_authenticator.Domain.User.{DateTime, ObjectId, User}
use ch_api_authenticator.Base.{
  Bool-cases, List, Option, String, [], false, inl, inr, none, some, subst, sym, ◌∷◌, ◌≡◌,
}
use ch_api_authenticator.State.{Ambient, AppState, Platform, World}
use ch_api_authenticator.Repository.Users

module _ (x : Platform) (ambient : Ambient) (P : List User → List IndexModel → Type 0) where
  -- A property of the accounts and the indexes that the two writes of the seed keep: an administrator's account is
  -- added, or the roles of one account are written.
  pub record IsSeedKept : Type 0 where
    pub by_insert :
        (email password hash : String) (id : ObjectId) (before : List User) (made : List IndexModel)
        → x.crypto.hash_password ambient.salt password ≡ some hash
        → any (same_account (identify id (administrator_of x ambient email hash))) before ≡ false
        → P before made
        → P (before ++ identify id (administrator_of x ambient email hash) ∷ []) made
    pub by_roles :
        (now : DateTime) (id : ObjectId) (roles : List String) (s : Store User)
        (made : List IndexModel)
        → P s.docs made
        → P (Users.update_roles x.users now id roles s).1.docs made

  module _ (k : IsSeedKept) where
    abbrev Kept : World → Type 0
    Kept w = P w.users.docs w.indexes

    insert-kept :
        (email password hash : String) (s : Store User) (made : List IndexModel)
        → x.crypto.hash_password ambient.salt password ≡ some hash
        → P s.docs made
        → P (Users.insert x.users (administrator_of x ambient email hash) s).1.docs made
    unfolding Users.insert
    insert-kept email password hash s made hashed held =
        elim (x.users.insert_one_law (administrator_of x ambient email hash) s) [
          | inl (id, _, wrote, free) ↦
              subst (λ ds. P ds made) (sym wrote)
                (k.by_insert email password hash id s.docs made hashed free held)
          | inr (_, _, inl same) ↦ subst (λ ds. P ds made) (sym same) held
          | inr (_, _, inr (id, wrote, free)) ↦
              subst (λ ds. P ds made) (sym wrote)
                (k.by_insert email password hash id s.docs made hashed free held)
        ]

    create_administrator-Keeps :
        (email password : String) → Keeps Kept (create_administrator x ambient email password)
    unfolding create_administrator
    create_administrator-Keeps email password =
        bind-Keeps Kept _ _ (λ w held. held)
          λ hash w hashed.
            bind-Keeps Kept _ _
              (λ v held.
                insert-kept email password hash v.users v.indexes (ok_or-eq-ok _ _ hashed) held)
              λ _ _ _ _ held. held

    promote-Keeps : (existing : User) → Keeps Kept (promote x ambient existing)
    unfolding promote
    promote-Keeps existing w held = elim (Bool-cases (contains admin_role existing.roles)) [
      | inl has ↦ rw has held
      | inr lacks ↦ rw lacks (
          bind-Keeps Kept _ _ (λ w held. held)
            (λ id _ _.
              bind-Keeps Kept _ _
                (λ v held. k.by_roles (ambient.clock 0) id _ v.users v.indexes held)
                λ _ _ _ _ held. held)
            w held)
    ]

    seed_found-Keeps :
        (email password : String) (found : Option User)
        → Keeps Kept (seed_found x ambient email password found)
    unfolding seed_found
    seed_found-Keeps email password none = create_administrator-Keeps email password
    seed_found-Keeps email password (some existing) = promote-Keeps existing

    seed_with-Keeps :
        (email password : Option String) → Keeps Kept (seed_with x ambient email password)
    unfolding seed_with
    seed_with-Keeps none none = λ w held. held
    seed_with-Keeps none (some password) = λ w held. held
    seed_with-Keeps (some email) none = λ w held. held
    seed_with-Keeps (some email) (some password) =
        bind-Keeps Kept _ _
          (λ w held.
            subst (λ ds. P ds w.indexes)
              (sym (find_by_email-docs x.users x.unicode.to_lowercase email w.users)) held)
          λ found _ _. seed_found-Keeps email password found

    pub seed_admin-Keeps : (state : AppState) → Keeps Kept (seed_admin x ambient state)
    unfolding seed_admin
    seed_admin-Keeps state =
        seed_with-Keeps state.settings.secrets.admin_email state.settings.secrets.admin_password

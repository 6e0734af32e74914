-- ===== src/Startup/Laws.antt =====
-- What the seed of the administrator writes.
use ch_api_authenticator.Repository.Users.Calls.{insert-ok}
use ch_api_authenticator.Startup.{seeded}
use ch_api_authenticator.Exec.Laws.{ok_injective}
use ch_api_authenticator.Exec.{Result, err}
use ch_api_authenticator.Repository.Users.{RepositoryError, database, duplicate_email}
use ch_api_authenticator.Startup.{seed_with}
use ch_api_authenticator.Startup.{seed_found}
use ch_api_authenticator.Repository.Users.{with_email, with_password}
use ch_api_authenticator.Base.{refl, subst}
use ch_api_authenticator.Repository.Users.Calls.{find_by_email-docs, find_by_email-ok}
use ch_api_authenticator.Repository.Users.Calls.{update-ok}
use ch_api_authenticator.Exec.{ok}
use ch_api_authenticator.Mongo.Docs.{modify_first}
use ch_api_authenticator.Exec.Laws.{invert_run, ok_or-eq-ok, relabel-eq-ok}
use ch_api_authenticator.Repository.Users.{
  has_email, has_id, identify, insert, loaded, update_roles, with_roles,
}
use ch_api_authenticator.Base.Lists.{contains, find}
use ch_api_authenticator.Startup.{
  administrator_of, create_administrator, grant, promote, seed_admin,
}
use ch_api_authenticator.Middleware.Auth.{admin_role}
use ch_api_authenticator.Mongo.{Store}
use ch_api_authenticator.Domain.User.{ObjectId, User, normalize_email}
use ch_api_authenticator.Base.{
  Bool-cases, List, Option, String, [], ap, arith, false, inl, inr, none, some, sym, true, ◌∙◌, ◌∷◌,
  ◌≡◌, ◌⊎◌,
}
use ch_api_authenticator.State.{Ambient, AppState, Platform, World}
use mathlib.Core.List
use mathlib.Core.Option

module _ (x : Platform) (ambient : Ambient) where
  -- An account that has the role is left as it is, and one that has it not is given it, after its
  -- other roles: what led from the first list of accounts to the second.
  pub IsPromoted : User → List User → List User → Type 0
  IsPromoted existing users users' =
      ((contains admin_role existing.roles ≡ true) × (users' ≡ users))
      ⊎ ((contains admin_role existing.roles ≡ false)
          × (id : ObjectId) × (existing.id ≡ some id)
          × (users'
              ≡ modify_first (has_id id)
                  (with_roles (ambient.clock 0) (List.◌++◌ existing.roles (admin_role ∷ [])))
                  users))

  -- An account with the role, whose password is hashed, was inserted, and it was added; only where
  -- the insertion answered that its email or id is taken may none have been.
  pub IsCreated : String → String → List User → List User → Type 0
  IsCreated email password users users' =
      (hash : String) × (x.crypto.hash_password ambient.salt password ≡ some hash)
      × (s : Store User) × (s.docs ≡ users)
      × (((id : ObjectId) × ((insert x.users (administrator_of x ambient email hash) s).0 ≡ ok id)
            × (users' ≡ List.◌++◌ users (identify id (administrator_of x ambient email hash) ∷ [])))
          ⊎ (((insert x.users (administrator_of x ambient email hash) s).0 ≡ err duplicate_email)
              × (users' ≡ (insert x.users (administrator_of x ambient email hash) s).1.docs)))

  grant-ok :
      (existing : User) (w : World)
      → (grant x ambient existing w).0 ≡ ok tt
      → (id : ObjectId) × (existing.id ≡ some id)
        × ((grant x ambient existing w).1.users.docs
            ≡ modify_first
                (has_id id)
                (with_roles (ambient.clock 0) (List.◌++◌ existing.roles (admin_role ∷ [])))
                w.users.docs)
  unfolding update_roles
  grant-ok existing w e = invert_run _ _ _ e λ id identified r₁ e₁.
      invert_run _ _ _ e₁ λ updated wrote r₂ e₂.
        let (_, changed) = update-ok x.users id _ _ updated (relabel-eq-ok _ _ wrote) in
        (id, ok_or-eq-ok _ _ identified, ap (λ r. r.1.users.docs) (r₁ ∙ r₂) ∙ changed)

  promote-ok :
      (existing : User) (w : World)
      → (promote x ambient existing w).0 ≡ ok tt
      → IsPromoted existing w.users.docs (promote x ambient existing w).1.users.docs
  unfolding promote IsPromoted
  promote-ok existing w e = elim (Bool-cases (contains admin_role existing.roles)) [
    | inl has ↦ inl (has, ground arith)
    | inr hasnt ↦
        let same : promote x ambient existing w ≡ grant x ambient existing w = ground arith in
        let (id, identified, changed) = grant-ok existing w (sym (ap (λ r. r.0) same) ∙ e) in
        inr (hasnt, id, identified, ap (λ r. r.1.users.docs) same ∙ changed)
  ]

  seeded-eq-ok :
      (r : Result RepositoryError ObjectId)
      → seeded r ≡ ok tt
      → ((id : ObjectId) × (r ≡ ok id)) ⊎ (r ≡ err duplicate_email)
  seeded-eq-ok (ok id) e = inl (id, refl)
  seeded-eq-ok (err duplicate_email) e = inr refl
  seeded-eq-ok (err (database error)) e = cc

  create_administrator-ok :
      (email password : String) (w : World)
      → (create_administrator x ambient email password w).0 ≡ ok tt
      → IsCreated email password w.users.docs
          (create_administrator x ambient email password w).1.users.docs
  unfolding create_administrator IsCreated
  create_administrator-ok email password w e = invert_run _ _ _ e λ hash hashed r₁ e₁.
      invert_run _ _ _ e₁ λ inserted tried r₂ e₂.
        let same = ap (λ r. r.1.users.docs) (r₁ ∙ r₂) in
        let answered = ok_injective _ _ inserted refl tried in
        (
          hash,
          ok_or-eq-ok _ _ hashed,
          w.users,
          refl,
          elim (seeded-eq-ok inserted e₂) [
            | inl (id, is_id) ↦ inl (
              id,
              answered ∙ is_id,
              same
                  ∙ (insert-ok x.users (administrator_of x ambient email hash) w.users id
                      (answered ∙ is_id)).0,
            )
            | inr taken ↦ inr (answered ∙ taken, same)
          ],
        )

  abbrev pub account_of : String → World → Option User
  account_of email w =
      Option.map loaded
        (find (has_email (normalize_email x.unicode.to_lowercase email)) w.users.docs)

  -- By whether there was an account of the email.
  abbrev pub IsSeeded : String → String → Option User → List User → List User → Type 0
  IsSeeded email password found users users' =
      ((existing : User) × (found ≡ some existing) × IsPromoted existing users users')
      ⊎ ((found ≡ none) × IsCreated email password users users')

  IsSeeded-moved :
      (email password : String) (account : Option User) (found : Option User)
      {users docs users' docs' : List User}
      → found ≡ account
      → users ≡ docs
      → docs' ≡ users'
      → IsSeeded email password found users users'
      → IsSeeded email password account docs docs'
  IsSeeded-moved email password account found {users} {docs} {users'} {docs'} h k l seeds =
      subst (λ f. IsSeeded email password f docs docs') h
        (subst (λ us. IsSeeded email password found us docs') k
          (subst (λ us. IsSeeded email password found users us) (sym l) seeds))

  seed_found-ok :
      (email password : String) (found : Option User) (w : World)
      → (seed_found x ambient email password found w).0 ≡ ok tt
      → IsSeeded email password found w.users.docs
          (seed_found x ambient email password found w).1.users.docs
  unfolding seed_found
  seed_found-ok email password (some existing) w e = inl (existing, refl, promote-ok existing w e)
  seed_found-ok email password none w e = inr (refl, create_administrator-ok email password w e)

  seed_with-ok :
      (email password : String) (w : World)
      → (seed_with x ambient (some email) (some password) w).0 ≡ ok tt
      → IsSeeded email password
          (account_of email w)
          w.users.docs
          (seed_with x ambient (some email) (some password) w).1.users.docs
  unfolding seed_with
  seed_with-ok email password w e = invert_run _ _ _ e λ found read r₁ e₁.
      IsSeeded-moved email password (account_of email w) found
        (find_by_email-ok x.users _ _ w.users found (relabel-eq-ok _ _ read))
        (find_by_email-docs x.users x.unicode.to_lowercase email w.users)
        (ap (λ r. r.1.users.docs) r₁) (seed_found-ok email password found _ e₁)

  -- A seed that succeeds, with an email and a password in the settings, gives the account of that
  -- email the administrator's role if it has it not, and leaves it as it is otherwise; where there is
  -- no such account it inserts an administrator's, which is added unless the insertion answers that
  -- the email or the id is taken.
  pub seed_admin-ok :
      (state : AppState) (email password : String) (w : World)
      → state.settings.secrets.admin_email ≡ some email
      → state.settings.secrets.admin_password ≡ some password
      → (seed_admin x ambient state w).0 ≡ ok tt
      → IsSeeded email password
          (account_of email w)
          w.users.docs
          (seed_admin x ambient state w).1.users.docs
  unfolding seed_admin
  seed_admin-ok state email password w with_email with_password e =
      let same : seed_admin x ambient state w ≡ seed_with x ambient (some email) (some password) w =
        ap (λ o. seed_with x ambient o state.settings.secrets.admin_password w) with_email
        ∙ ap (λ o. seed_with x ambient (some email) o w) with_password in
      IsSeeded-moved email password (account_of email w) _ refl refl (ap (λ r. r.1.users.docs) same)
        (seed_with-ok email password w (sym (ap (λ r. r.0) same) ∙ e))

-- ===== src/Handlers/Internal/Laws.antt =====
-- Who may turn ids into names, and how many at a time.
use Prim.Native.Nat.{zero, suc}
use ch_api_authenticator.Base.{zero}
use ch_api_authenticator.Handlers.Internal.{provided_secret}
use ch_api_authenticator.Handlers.Internal.{max_resolved}
use ch_api_authenticator.Exec.Laws.{guard-eq-ok}
use ch_api_authenticator.Base.{ap, ◌∙◌}
use ch_api_authenticator.Base.Text.{is_empty}
use ch_api_authenticator.Base.{Bool-cases, false, inl, inr, refl, suc}
use ch_api_authenticator.Exec.{ok}
use ch_api_authenticator.Base.Lists.{length, take}
use ch_api_authenticator.Exec.Laws.{invert}
use ch_api_authenticator.Domain.User.{User}
use ch_api_authenticator.Handlers.Internal.{
  ResolvedUser, internal_secret_header, is_authorized, push_found, resolve_all, resolve_users,
}
use ch_api_authenticator.Base.{
  List, Option, String, [], arith, eq_iff, none, some, true, ℕ, ◌+◌, ◌↔◌, ◌∷◌, ◌≡◌, ◌≢◌, ◌≤◌,
}
use ch_api_authenticator.State.{Ambient, AppState, Platform, World}

is_empty-eq-true : (s : String) → is_empty s ≡ true → s ≡ ""
is_empty-eq-true String.[] e = refl
is_empty-eq-true (String.◌∷◌ c s) e = cc

not-empty : (s : String) → is_empty s ≡ false → s ≢ ""
not-empty s e h = cc

-- The secret is accepted exactly if it is the expected one and not empty.
pub is_authorized_iff :
    (provided expected : String)
    → (is_authorized provided expected ≡ true) ↔ ((provided ≡ expected) × (provided ≢ ""))
unfolding is_authorized
is_authorized_iff provided expected = elim (Bool-cases (is_empty provided)) [
  | inl empty ↦ ground (arith, is_empty-eq-true provided empty)
  | inr filled ↦ ground (arith, eq_iff provided expected, not-empty provided filled)
]

provided_secret-eq :
    (header : Option String) (secret : String)
    → provided_secret header ≡ secret
    → provided_secret header ≢ ""
    → header ≡ some secret
provided_secret-eq none secret h k = absurd (k refl)
provided_secret-eq (some value) secret h k = ap some h

module _ (x : Platform) where
  length-take_le : (n : ℕ) (ids : List String) → length (take n ids) ≤ n
  length-take_le zero ids = ground arith
  length-take_le (suc n) [] = ground arith
  length-take_le (suc n) (id ∷ ids) = ground (arith, length-take_le n ids)

  length-push_found :
      (found : Option User) (rest : List ResolvedUser)
      → length (push_found x found rest) ≤ length rest + 1
  length-push_found none rest = ground arith
  length-push_found (some user) rest = ground arith

  resolve_all-length :
      (ids : List String) (w : World) (answer : List ResolvedUser)
      → (resolve_all x ids w).0 ≡ ok answer
      → length answer ≤ length ids
  unfolding resolve_all
  resolve_all-length [] w answer e = ground arith
  resolve_all-length (id ∷ ids) w answer e = invert _ _ _ e λ found _ e₁.
      invert _ _ _ e₁ λ rest resolved e₂.
        ground (arith, length-push_found found rest, resolve_all-length ids _ rest resolved)

  -- Ids are turned into names only for a caller that shows the secret, which is not empty, and at most
  -- a thousand of them.
  pub resolve_users-ok :
      (state : AppState) (ambient : Ambient) (ids : List String) (w : World)
      (answer : List ResolvedUser)
      → (resolve_users x state ambient ids w).0 ≡ ok answer
      → (ambient.headers internal_secret_header ≡ some state.settings.secrets.internal_api_secret)
        × (state.settings.secrets.internal_api_secret ≢ "")
        × (length answer ≤ 1000)
  unfolding resolve_users
  resolve_users-ok state ambient ids w answer e = invert _ _ _ e λ _ authorized e₁.
      let shown =
        (is_authorized_iff (provided_secret (ambient.headers internal_secret_header))
            state.settings.secrets.internal_api_secret).0
          (guard-eq-ok _ _ authorized) in
      let few = resolve_all-length (take max_resolved ids) w answer e₁ in
      let fewer = length-take_le 1000 ids in
      (
        provided_secret-eq (ambient.headers internal_secret_header) _ shown.0 shown.1,
        λ empty. shown.1 (shown.0 ∙ empty),
        ground arith,
      )

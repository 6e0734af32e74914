-- ===== src/Handlers/Validate/Laws.antt =====
-- When the gateway's check passes.
use ch_api_authenticator.Handlers.Validate.{portal_header}
use ch_api_authenticator.Base.Text.{is_empty}
use ch_api_authenticator.Domain.Role.{Portal, from_portal_header}
use ch_api_authenticator.Base.{Bool-cases, true}
use ch_api_authenticator.Services.Jwt.{has_role}
use ch_api_authenticator.Error.{invalid_token}
use ch_api_authenticator.Base.Text.{trim}
use ch_api_authenticator.Base.{sym, ◌∙◌}
use ch_api_authenticator.Base.{ap}
use ch_api_authenticator.Error.{invalid_token}
use ch_api_authenticator.Base.{
  ℕ, String, eq_iff, ◌≡◌, refl, ◌↔◌, ◌≢◌, ◌⊎◌, inl, inr, Option, Option-cases, none, some, List, [],
  ◌∷◌, arith,
}
use ch_api_authenticator.Base.Text.{join}
use ch_api_authenticator.Error.{AppError}
use ch_api_authenticator.Exec.Laws.{ok_or-eq-ok}
use ch_api_authenticator.Exec.{Result, ok, err, ok_or}
use ch_api_authenticator.Services.Net.{Headers}
use ch_api_authenticator.Services.ClientIp.{client_ip_header}
use ch_api_authenticator.Services.Jwt.{Claims, JwtCrate, JwtService}
use ch_api_authenticator.Services.Jwt
use ch_api_authenticator.Handlers.Validate.{
  ValidateResponse, trimmed, bearer_token, require_ip, require_known_portal, require_roles,
  validate, and_ok,
}

and_ok-eq-ok :
    {A B : Type 0} (r : Result AppError A) (f : A → Result AppError B) (b : B)
    → and_ok r f ≡ ok b
    → (a : A) × (r ≡ ok a) × (f a ≡ ok b)
and_ok-eq-ok (ok a) f b h = (a, refl, h)
and_ok-eq-ok (err e) f b h = cc

ok_injective : {A : Type 0} (r : Result AppError A) (a b : A) → r ≡ ok a → r ≡ ok b → b ≡ a
ok_injective r a b h k = cc

ok-and_ok :
    {A B : Type 0} (r : Result AppError A) (a : A) (f : A → Result AppError B) (b : B)
    → r ≡ ok a
    → f a ≡ ok b
    → and_ok r f ≡ ok b
ok-and_ok r a f b h k = ap (λ r. and_ok r f) h ∙ k

some-ok_or : {A : Type 0} (o : Option A) (a : A) (e : AppError) → o ≡ some a → ok_or o e ≡ ok a
some-ok_or o a e h = ap (λ o. ok_or o e) h

-- A claim of an address is met by the header of that address alone.
pub require_ip_iff :
    (headers : Headers) (ip : Option String)
    → (require_ip headers ip ≡ ok tt) ↔ (
        (ip ≡ none)
        ⊎ ((own : String) × (ip ≡ some own) × (trimmed (headers client_ip_header) ≡ some own)))
unfolding require_ip
require_ip_iff headers none = ((λ e. inl refl), λ h. refl)
require_ip_iff headers (some own) = elim (Option-cases (headers client_ip_header)) [
  | inl (inj_none) ↦ ground arith
  | inr (value, h) ↦ ground (arith, eq_iff (trim value) own)
]

from_portal_header-empty : (s : String) → is_empty s ≡ true → from_portal_header s ≡ none
unfolding from_portal_header
from_portal_header-empty String.[] e = refl
from_portal_header-empty (String.◌∷◌ c s) e = cc

-- The header of the portal is met by the text of a portal, with white space around it or not.
pub require_known_portal_iff :
    (headers : Headers)
    → (require_known_portal headers ≡ ok tt) ↔ (
        (value : String) × (portal : Portal) × (headers portal_header ≡ some value)
        × (from_portal_header (trim value) ≡ some portal))
unfolding require_known_portal
require_known_portal_iff headers = (
  λ e. elim (Option-cases (headers portal_header)) [
    | inl missing ↦ absurd (ground arith)
    | inr (value, h) ↦ elim (Option-cases (from_portal_header (trim value))) [
      | inl refused ↦ absurd (ground arith)
      | inr (portal, known) ↦ (value, portal, h, known)
    ]
  ],
  λ (value, portal, h, known). elim (Bool-cases (is_empty (trim value))) [
    | inl empty ↦ absurd (ground (arith, from_portal_header-empty (trim value) empty))
    | inr filled ↦ ground arith
  ],
)

require_roles_iff : (roles : List String) → (require_roles roles ≡ ok tt) ↔ (roles ≢ [])
unfolding require_roles
require_roles_iff [] = ground arith
require_roles_iff (role ∷ roles) = ground arith

module _ (jwt : JwtCrate) (service : JwtService) (now : ℕ) (headers : Headers) where
  -- The check passes exactly for a bearer token that validates, from the address that it is bound to
  -- if it is bound to one, for a known portal, with a role at least; and it answers the token's
  -- subject and its roles.
  pub validate_iff :
      (response : ValidateResponse)
      → (validate jwt service now headers ≡ ok response) ↔ (
          (token : String) × (claims : Claims) × (bearer_token headers ≡ some token)
          × (Jwt.validate jwt service now token ≡ some claims)
          × ((claims.ip ≡ none)
              ⊎ ((own : String) × (claims.ip ≡ some own)
                  × (trimmed (headers client_ip_header) ≡ some own)))
          × (value : String) × (portal : Portal) × (headers portal_header ≡ some value)
          × (from_portal_header (trim value) ≡ some portal)
          × (claims.roles ≢ [])
          × (response ≡ record { user_id = claims.sub; role = join "," claims.roles }))
  unfolding validate
  validate_iff response = (
    λ e.
        let (token, is_token, e₁) = and_ok-eq-ok _ _ response e in
        let (claims, is_claims, e₂) = and_ok-eq-ok _ _ response e₁ in
        let (_, is_ip, e₃) = and_ok-eq-ok _ _ response e₂ in
        let (_, is_portal, e₄) = and_ok-eq-ok _ _ response e₃ in
        let (value, portal, sent, known) = (require_known_portal_iff headers).0 is_portal in
        let (_, is_roles, e₅) = and_ok-eq-ok _ _ response e₄ in
        (
          token,
          claims,
          ok_or-eq-ok _ invalid_token is_token,
          ok_or-eq-ok _ invalid_token is_claims,
          (require_ip_iff headers claims.ip).0 is_ip,
          value,
          portal,
          sent,
          known,
          (require_roles_iff claims.roles).0 is_roles,
          ok_injective _ _ _ refl e₅,
        ),
    λ (token, claims, is_token, is_claims, from_ip, value, portal, sent, known, has_role, answer).
        ok-and_ok _ _ _ _ (some-ok_or _ _ _ is_token) (
          ok-and_ok _ _ _ _ (some-ok_or _ _ _ is_claims) (
            ok-and_ok _ _ _ _ ((require_ip_iff headers claims.ip).1 from_ip) (
              ok-and_ok _ _ _ _ ((require_known_portal_iff headers).1 (value, portal, sent, known))
                (ok-and_ok _ _ _ _ ((require_roles_iff claims.roles).1 has_role)
                  (ap ok (sym answer)))))),
  )

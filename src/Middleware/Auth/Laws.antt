-- ===== src/Middleware/Auth/Laws.antt =====
-- Which token counts, and who passes as an administrator.
use ch_api_authenticator.Base.{
  ℕ, String, ◌≡◌, refl, ◌↔◌, inl, inr, Option-cases, true, Option, some, arith,
}
use ch_api_authenticator.Base.Lists.{contains}
use ch_api_authenticator.Exec.{ok}
use ch_api_authenticator.Services.Net.{Headers}
use ch_api_authenticator.Services.Jwt.{Claims, JwtCrate, JwtService, validate}
use ch_api_authenticator.Handlers.Cookies.{value_in, pair_value}
use ch_api_authenticator.Middleware.Auth.{
  admin_role, authorization_header, cookie_header, token_from_cookie, extract_token, portal_admin,
}

-- The two readers of a cookie, of middleware/auth.rs and of handlers/session.rs, agree.
pub token_from_cookie-eq-value_in :
    (header name : String) → token_from_cookie header name ≡ value_in name header
unfolding token_from_cookie value_in pair_value
token_from_cookie-eq-value_in header name = refl

module _ (jwt : JwtCrate) (service : JwtService) (cookie_name : String) where
  -- A request passes as an administrator's exactly if the token that counts validates, and its
  -- claims hold the administrator's role.
  pub portal_admin_iff :
      (now : ℕ) (headers : Headers) (claims : Claims)
      → (portal_admin jwt service cookie_name now headers ≡ ok claims) ↔ (
          (token : String) × (extract_token
              (headers authorization_header)
              (headers cookie_header)
              cookie_name
            ≡ some token)
          × (validate jwt service now token ≡ some claims)
          × (contains admin_role claims.roles ≡ true))
  unfolding portal_admin
  portal_admin_iff now headers claims = (
    (λ e. elim (Option-cases (counted headers)) [
      | inl missing ↦ absurd (ground arith)
      | inr (token, found) ↦ elim (Option-cases (validate jwt service now token)) [
        | inl refused ↦ absurd (ground arith)
        | inr (own, valid) ↦ (token, found, ground arith, ground arith)
      ]
    ]),
    λ (token, found, valid, is_admin). ground arith,
  )
    where
      counted : Headers → Option String
      counted given = extract_token (given authorization_header) (given cookie_header) cookie_name

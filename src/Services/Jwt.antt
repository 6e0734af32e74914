-- ===== src/Services/Jwt.antt =====
-- services/jwt.rs: access tokens. Signing and checking a token is the `jsonwebtoken` crate's, and a
-- parameter of the model.
pub mod Laws
use mathlib.Core.Option
use mathlib.Core.List.{◌++◌}
use ch_api_authenticator.Base.{
  ℕ, ◌+◌, ◌*◌, ◌≡◌, String, ◌==◌, Bool, true, false, Option, none, some, List, [], ◌∷◌, ltb,
  if◌then◌else◌,
}
use ch_api_authenticator.Base.Lists.{contains}
use ch_api_authenticator.Domain.User.{ObjectId, User}
use ch_api_authenticator.Domain.RolesFormat.{RolesFormat, flat, deserialize_roles}
use ch_api_authenticator.Domain.Role.{role_name, drive, budgy}
use ch_api_authenticator.Repository.Dates.{wrap64}

pub record Claims : Type 0 where
  pub sub : String
  pub roles : List String
  pub ip : Option String
  pub iss : String
  pub aud : List String
  pub iat : ℕ
  pub exp : ℕ

-- `Claims::has_role`
unfoldable pub has_role : String → Claims → Bool
has_role role claims = contains role claims.roles

-- The claims of a token before serde reads the roles, which come in one of three formats.
pub record Payload : Type 0 where
  pub sub : String
  pub roles : RolesFormat
  pub ip : Option String
  pub iss : String
  pub aud : List String
  pub iat : ℕ
  pub exp : ℕ

-- `Claims` as serde writes them.
abbrev pub written : Claims → Payload
written claims = record {
  sub = claims.sub;
  roles = flat claims.roles;
  ip = claims.ip;
  iss = claims.iss;
  aud = claims.aud;
  iat = claims.iat;
  exp = claims.exp;
}

-- `Claims` as serde reads them, the roles through `deserialize_roles`.
abbrev pub read : Payload → Claims
read payload = record {
  sub = payload.sub;
  roles = deserialize_roles payload.roles;
  ip = payload.ip;
  iss = payload.iss;
  aud = payload.aud;
  iat = payload.iat;
  exp = payload.exp;
}

-- The leeway of `Validation::new`, in seconds.
abbrev pub leeway : ℕ
leeway = 60

-- HS256 with the `Validation` of the service: the signature and the expiry are checked, the audience
-- is not. `none` is an error of the crate.
pub record JwtCrate : Type 0 where
  pub encode : String → Payload → Option String
  pub decode : String → ℕ → String → Option Payload
  -- A token reads back under its key until its expiry, with the leeway, has passed.
  pub decode-encode :
      (secret : String) (now : ℕ) (payload : Payload) (token : String)
      → encode secret payload ≡ some token
      → decode secret now token ≡ (if ltb (payload.exp + leeway) now then none else some payload)

pub record TokenConfig : Type 0 where
  pub ttl_minutes : ℕ
  pub cookie_name : String
  pub cookie_secure : Bool
  pub refresh_ttl_days : ℕ
  pub refresh_cookie_name : String
  pub issuer : String
  pub audience_drive : String
  pub audience_budgy : String
  pub cookie_domain : Option String

pub record JwtService : Type 0 where
  pub secret : String
  pub ttl : ℕ
  pub issuer : String
  pub audiences_by_role : List (String × String)

abbrev pub audiences_by_role : TokenConfig → List (String × String)
audiences_by_role token =
    (role_name drive, token.audience_drive) ∷ (role_name budgy, token.audience_budgy) ∷ []

-- `JwtService::new`; the time to live in seconds.
unfoldable pub new : String → TokenConfig → JwtService
new secret token = record {
  secret = secret;
  ttl = wrap64 (token.ttl_minutes * 60);
  issuer = token.issuer;
  audiences_by_role = audiences_by_role token;
}

-- `HashMap::get`
abbrev pub audience_of : String → List (String × String) → Option String
audience_of role [] = none
audience_of role ((key, audience) ∷ entries) =
    if key == role then some audience else audience_of role entries

abbrev push_new : Option String → List String → List String
push_new none audiences = audiences
push_new (some audience) audiences =
    if contains audience audiences then audiences else audiences ++ audience ∷ []

-- The loop of `audiences_for`.
unfoldable pub audiences_from : List (String × String) → List String → List String → List String
audiences_from entries audiences [] = audiences
audiences_from entries audiences (role ∷ roles) =
    audiences_from entries (push_new (audience_of role entries) audiences) roles

unfoldable pub audiences_for : JwtService → List String → List String
unfolding audiences_from
audiences_for service roles = audiences_from service.audiences_by_role [] roles

module _ (jwt : JwtCrate) (to_hex : ObjectId → String) where
  open jwt use {encode}

  -- The claims that `issue` signs at the time `now` in seconds.
  unfoldable pub claims_for : JwtService → ℕ → ObjectId → List String → Option String → Claims
  claims_for service now id roles ip = record {
    sub = to_hex id;
    roles = roles;
    ip = ip;
    iss = service.issuer;
    aud = audiences_for service roles;
    iat = now;
    exp = wrap64 (now + service.ttl);
  }

  -- `issue`, for an account that has an id; `none` is an error of the crate.
  unfoldable pub issue : JwtService → ℕ → ObjectId → List String → Option String → Option String
  unfolding claims_for
  issue service now id roles ip =
      encode service.secret (written (claims_for service now id roles ip))

unfoldable pub validate : JwtCrate → JwtService → ℕ → String → Option Claims
validate jwt service now token = Option.map read (jwt.decode service.secret now token)

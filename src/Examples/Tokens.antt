-- ===== src/Examples/Tokens.antt =====
-- A crate of tokens that signs one payload, as the text "token".
use ch_api_authenticator.Domain.RolesFormat.{per_portal_many, per_portal_one}
use ch_api_authenticator.Base.{Bool-cases, ap, inl, inr, subst, sym, ◌∙◌}
use ch_api_authenticator.Domain.RolesFormat.{RolesFormat, flat}
use ch_api_authenticator.Services.Jwt.{Claims, JwtCrate, Payload, leeway, written}
use ch_api_authenticator.Base.{
  Bool, List, Option, String, [], arith, eq_iff, eqb, false, if◌then◌else◌, ltb, none, refl, some,
  true, ℕ, ◌&&◌, ◌+◌, ◌==◌, ◌∷◌, ◌≡◌,
}

abbrev eq_list : List String → List String → Bool
eq_list [] [] = true
eq_list (a ∷ xs) (b ∷ ys) = a == b && eq_list xs ys
eq_list _ _ = false

eq_list-eq : (xs ys : List String) → eq_list xs ys ≡ true → xs ≡ ys
eq_list-eq [] [] h = refl
eq_list-eq (a ∷ xs) [] h = cc
eq_list-eq [] (b ∷ ys) h = cc
eq_list-eq (a ∷ xs) (b ∷ ys) h = ground (arith, eq_iff a b, eq_list-eq xs ys)

abbrev eq_option : Option String → Option String → Bool
eq_option none none = true
eq_option (some a) (some b) = a == b
eq_option _ _ = false

eq_option-eq : (a b : Option String) → eq_option a b ≡ true → a ≡ b
eq_option-eq none none h = refl
eq_option-eq none (some b) h = cc
eq_option-eq (some a) none h = cc
eq_option-eq (some a) (some b) h = ground (arith, eq_iff a b)

abbrev eq_claims : Claims → Claims → Bool
eq_claims a b =
    a.sub == b.sub
    && eq_list a.roles b.roles
    && eq_option a.ip b.ip
    && a.iss == b.iss
    && eq_list a.aud b.aud
    && eqb a.iat b.iat
    && eqb a.exp b.exp

eq_claims-eq : (a b : Claims) → eq_claims a b ≡ true → written a ≡ written b
eq_claims-eq a b h = ground (
  arith,
  eq_iff a.sub b.sub,
  eq_list-eq a.roles b.roles,
  eq_option-eq a.ip b.ip,
  eq_iff a.iss b.iss,
  eq_list-eq a.aud b.aud,
)

abbrev payload_with : List String → Payload → Claims
payload_with roles p = record {
  sub = p.sub;
  roles = roles;
  ip = p.ip;
  iss = p.iss;
  aud = p.aud;
  iat = p.iat;
  exp = p.exp;
}

abbrev is_payload : Claims → Payload → RolesFormat → Bool
is_payload claims p (flat roles) = eq_claims (payload_with roles p) claims
is_payload claims p _ = false

is_payload-eq :
    (claims : Claims) (p : Payload) (roles : RolesFormat)
    → roles ≡ p.roles
    → is_payload claims p roles ≡ true
    → p ≡ written claims
is_payload-eq claims p (flat roles) h e =
    sym (ap (λ r. record p { roles = r }) h) ∙ eq_claims-eq (payload_with roles p) claims e
is_payload-eq claims p (per_portal_many entries) h e = cc
is_payload-eq claims p (per_portal_one entries) h e = cc

module _ (claims : Claims) where
  abbrev encode : String → Payload → Option String
  encode secret p = if is_payload claims p p.roles then some "token" else none

  abbrev decode : String → ℕ → String → Option Payload
  decode secret now token =
      if token == "token"
      then (if ltb (claims.exp + leeway) now then none else some (written claims))
      else none

  pub decode-encode :
      (secret : String) (now : ℕ) (p : Payload) (token : String)
      → encode secret p ≡ some token
      → decode secret now token ≡ (if ltb (p.exp + leeway) now then none else some p)
  decode-encode secret now p token h = elim (Bool-cases (is_payload claims p p.roles)) [
    | inl signed ↦
        let same = is_payload-eq claims p p.roles refl signed in
        let named : "token" ≡ token = ground arith in
        subst (λ q. decode secret now token ≡ (if ltb (q.exp + leeway) now then none else some q))
          (sym same)
          (subst
            (λ t.
              decode secret now t
              ≡ (if ltb (claims.exp + leeway) now then none else some (written claims)))
            named refl)
    | inr other ↦ absurd (ground arith)
  ]

  abbrev pub crate_of : JwtCrate
  crate_of = record { encode = encode; decode = decode; decode-encode = decode-encode }

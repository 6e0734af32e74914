-- ===== src/Validation/Laws.antt =====
-- Which passwords are accepted.
use ch_api_authenticator.Base.{eq_iff, if◌then◌else◌, ◌==◌}
use ch_api_authenticator.Base.Text.{is_empty, trim}
use ch_api_authenticator.Base.Lists.{contains, filter}
use ch_api_authenticator.Validation.{compromised_passwords, normalize_password}
use ch_api_authenticator.Base.{Bool-cases, [], inl, inr, map, ◌∷◌, ◌⊎◌}
use Prim.Native.String.{count}
use ch_api_authenticator.Base.{String, ◌≡◌, ◌↔◌, ◌≤◌, true, false, not, List, arith}
use ch_api_authenticator.Exec.{ok}
use ch_api_authenticator.Validation.{
  Unicode, any_char, is_ascii_digit, is_compromised, validate_password_strength,
}

contains-listed :
    (key entry : String) (entries : List String)
    → (contains key (if not (is_empty entry) then entry ∷ entries else entries) ≡ true)
      ↔ (((entry ≡ key) × (is_empty entry ≡ false)) ⊎ (contains key entries ≡ true))
contains-listed key entry entries = elim (Bool-cases (is_empty entry)) [
  | inl nothing ↦ ((λ e. inr (ground arith)), λ h. ground arith)
  | inr something ↦ elim (Bool-cases (entry == key)) [
    | inl same ↦ ((λ e. inl ((eq_iff entry key).0 same, something)), λ h. ground arith)
    | inr other ↦ ((λ e. inr (ground arith)), λ h. ground (arith, eq_iff entry key))
  ]
]

module _ (unicode : Unicode) where
  -- Some line of the lists of compromised passwords is the password, but for case and spaces around.
  abbrev pub IsListed : String → List String → Type 0
  IsListed value [] = ⊥
  IsListed value (line ∷ rest) =
      ((unicode.to_lowercase (trim line) ≡ unicode.to_lowercase (trim value))
        × (is_empty (unicode.to_lowercase (trim line)) ≡ false))
      ⊎ IsListed value rest

  contains-IsListed :
      (value : String) (entries : List String)
      → (contains (unicode.to_lowercase (trim value)) (
            filter
              (λ entry. not (is_empty entry))
              (map (λ line. unicode.to_lowercase (trim line)) entries))
          ≡ true)
        ↔ IsListed value entries
  contains-IsListed value [] = ((λ e. cc), λ h. absurd h)
  contains-IsListed value (line ∷ rest) =
      let (to, from) = contains-IsListed value rest in
      let (listed, contained) =
        contains-listed (unicode.to_lowercase (trim value)) (unicode.to_lowercase (trim line)) _ in
      (
        (λ e. elim (listed e) [ inl here ↦ inl here | inr later ↦ inr (to later) ]),
        λ h. contained (elim h [ inl here ↦ inl here | inr later ↦ inr (from later) ]),
      )

module _ (unicode : Unicode) (lines : List String) where
  -- A password is compromised exactly if a line of the lists is that password.
  pub is_compromised-IsListed :
      (value : String) → (is_compromised unicode lines value ≡ true) ↔ IsListed unicode value lines
  unfolding is_compromised compromised_passwords normalize_password
  is_compromised-IsListed value = contains-IsListed unicode value lines

  -- A password is accepted exactly if it has twelve characters or more, one of each of the four
  -- kinds, and no line of the lists of compromised passwords is that password, but for case and the
  -- spaces around it.
  pub validate_password_strength_iff :
      (value : String)
      → (validate_password_strength unicode lines value ≡ ok tt) ↔ (
          (12 ≤ count value)
          × (any_char unicode.is_uppercase value ≡ true)
          × (any_char unicode.is_lowercase value ≡ true)
          × (any_char is_ascii_digit value ≡ true)
          × (any_char (λ c. not (unicode.is_alphanumeric c)) value ≡ true)
          × ¬ (IsListed unicode value lines))
  unfolding validate_password_strength
  validate_password_strength_iff value =
      let (to, from) = is_compromised-IsListed value in
      elim (Bool-cases (is_compromised unicode lines value)) [
        | inl listed ↦ ((λ e. absurd (ground arith)), λ h. absurd (h.5 (to listed)))
        | inr free ↦ (
          (λ e. (
            ground arith,
            ground arith,
            ground arith,
            ground arith,
            ground arith,
            λ h. absurd (ground (arith, from h)),
          )),
          λ h. ground arith,
        )
      ]

-- ===== src/Validation.antt =====
-- validation.rs: the strength of a password, and the message of a request that fails its checks.
pub mod Laws
use Prim.Native.Char.{code}
use Prim.Native.String
use Prim.Native.String.{count}
use ch_api_authenticator.Base.{
  ℕ, String, Bool, true, false, not, ◌&&◌, ◌||◌, Option, none, some, List, [], ◌∷◌, map, leb,
  if◌then◌else◌,
}
use ch_api_authenticator.Base.Lists.{contains, filter}
use ch_api_authenticator.Base.Text.{trim, is_empty, join}
use ch_api_authenticator.Error.{AppError, validation}
use ch_api_authenticator.Exec.{Result, ok, err}

abbrev pub password_min_chars : ℕ
password_min_chars = 12

-- The tables of Unicode behind `char` and `str`, of which only the digits are ASCII's.
pub record Unicode : Type 0 where
  pub to_lowercase : String → String
  pub is_uppercase : ℕ → Bool
  pub is_lowercase : ℕ → Bool
  pub is_alphanumeric : ℕ → Bool

-- A `ValidationError`: its code and its message.
pub record ValidationError : Type 0 where
  pub code : String
  pub message : Option String

-- `value.chars().any(p)`
abbrev pub any_char : (ℕ → Bool) → String → Bool
any_char p String.[] = false
any_char p (String.◌∷◌ c s) = p (code c) || any_char p s

abbrev pub is_ascii_digit : ℕ → Bool
is_ascii_digit c = leb b'0' c && leb c b'9'

-- `lines` are those of the two files that are compiled into the program.
module _ (unicode : Unicode) (lines : List String) where
  open unicode use {to_lowercase, is_uppercase, is_lowercase, is_alphanumeric}

  unfoldable pub normalize_password : String → String
  normalize_password value = to_lowercase (trim value)

  -- COMPROMISED_PASSWORDS
  unfoldable pub compromised_passwords : List String
  compromised_passwords = filter (λ entry. not (is_empty entry)) (map normalize_password lines)

  unfoldable pub is_compromised : String → Bool
  is_compromised value = contains (normalize_password value) compromised_passwords

  unfoldable pub is_strong : String → Bool
  is_strong value =
      leb password_min_chars (count value)
      && any_char is_uppercase value
      && any_char is_lowercase value
      && any_char is_ascii_digit value
      && any_char (λ c. not (is_alphanumeric c)) value

  abbrev password_strength : ValidationError
  password_strength = record {
    code = "password_strength";
    message =
        some
          "le mot de passe doit contenir au moins 12 caractères, une majuscule, une minuscule, un chiffre et un caractère spécial";
  }

  abbrev password_compromised : ValidationError
  password_compromised = record {
    code = "password_compromised";
    message = some "ce mot de passe est trop courant ou compromis : choisissez-en un autre";
  }

  unfoldable pub validate_password_strength : String → Result ValidationError (Unit {0})
  unfolding is_strong
  validate_password_strength value =
      if not (is_strong value)
      then err password_strength
      else if is_compromised value
      then err password_compromised
      else ok tt

abbrev pub message_or_default : ValidationError → String
message_or_default error = elim error.message [ none ↦ "champ invalide" | some message ↦ message ]

unfoldable pub format_errors : List ValidationError → String
format_errors errors = join " ; " (map message_or_default errors)

-- The errors of one field, as the derived `validate` collects them.
unfoldable pub field_error : Result ValidationError (Unit {0}) → List ValidationError
field_error (ok valid) = []
field_error (err error) = error ∷ []

-- #[validate(email(message = ..))] and #[validate(length(min = 1, message = ..))]
unfoldable pub require : String → String → Bool → List ValidationError
require code message valid =
    if valid then [] else record { code = code; message = some message } ∷ []

-- `check`; the errors come in the order in which the map of the fields is iterated, which is not
-- defined.
unfoldable pub check :
    (List ValidationError → List ValidationError)
    → List ValidationError
    → Result AppError (Unit {0})
check iterate [] = ok tt
check iterate (error ∷ errors) = err (validation (format_errors (iterate (error ∷ errors))))

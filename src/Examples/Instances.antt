-- ===== src/Examples/Instances.antt =====
-- Small instances of the other crates' code.
use ch_api_authenticator.Services.Crypto.Crates.{Argon2, TokenCrates, crypto_of}
use ch_api_authenticator.Validation.{Unicode}
use ch_api_authenticator.Exec.{Result}
use ch_api_authenticator.Base.{
  Option, String, ap, arith, eq_refl, eqb, if◌then◌else◌, leb, none, refl, some, true, ℕ, ◌&&◌,
  ◌==◌, ◌||◌, ◌≡◌,
}
use ch_api_authenticator.Services.Net.{IpAddr, IpNet, Net, eq_ip, v4, v6}
use ch_api_authenticator.Services.RateLimit.{Governor}
use ch_api_authenticator.Services.Crypto.{Crypto}
use Prim.Native.Nat.{zero, suc}
use Prim.Native.Char.{code}

-- A number as so many letters.
abbrev pub unary : ℕ → String
unary zero = ""
unary (suc n) = String.◌∷◌ "a" (unary n)

abbrev pub from_unary : String → Option ℕ
from_unary String.[] = some 0
from_unary (String.◌∷◌ c s) =
    if eqb (code c) b'a' then elim (from_unary s) [ none ↦ none | some n ↦ some (suc n) ] else none

pub from_unary-unary : (n : ℕ) → from_unary (unary n) ≡ some n
from_unary-unary zero = refl
from_unary-unary (suc n) = ground (arith, from_unary-unary n)

-- An address is a letter for its kind and its number; "n" is the network of all.
abbrev show_ip : IpAddr → String
show_ip (v4 n) = String.◌∷◌ "v" (unary n)
show_ip (v6 n) = String.◌∷◌ "w" (unary n)

abbrev kind_of : (ℕ → IpAddr) → Option ℕ → Option IpAddr
kind_of kind none = none
kind_of kind (some n) = some (kind n)

abbrev parse_ip : String → Option IpAddr
parse_ip String.[] = none
parse_ip (String.◌∷◌ c s) =
    if eqb (code c) b'v'
    then kind_of v4 (from_unary s)
    else if eqb (code c) b'w'
    then kind_of v6 (from_unary s)
    else none

abbrev parse_net : String → Option IpNet
parse_net String.[] = none
parse_net (String.◌∷◌ c s) = if eqb (code c) b'n' then some (λ ip. true) else none

pub parse_ip-show_ip : (ip : IpAddr) → parse_ip (show_ip ip) ≡ some ip
parse_ip-show_ip (v4 n) = ap (kind_of v4) (from_unary-unary n)
parse_ip-show_ip (v6 n) = ap (kind_of v6) (from_unary-unary n)

pub parse_net-show_ip : (ip : IpAddr) → parse_net (show_ip ip) ≡ none
parse_net-show_ip (v4 n) = refl
parse_net-show_ip (v6 n) = refl

abbrev pub net : Net
net = record {
  parse_ip = parse_ip;
  show_ip = show_ip;
  parse_net = parse_net;
  net_of = eq_ip;
  parse_ip-show_ip = parse_ip-show_ip;
  parse_net-show_ip = parse_net-show_ip;
  net_of_lem = λ ip other. refl;
}

pub verify_hash :
    (salt password hash : String) → some password ≡ some hash → password == hash ≡ true
verify_hash salt password hash h = ground (arith, eq_refl password)

-- A password is its own hash, and every text is one.
abbrev pub argon2 : Argon2 String
argon2 = record {
  hash_password = λ password salt. some password;
  parse = λ stored. some stored;
  verify_password = λ password hash. password == hash;
  hash_password_law =
      λ password salt printed e. (printed, refl, verify_hash salt password printed e);
}

-- Bytes are texts, and a token is its own digest.
abbrev pub token_crates : TokenCrates String
token_crates = record { encode_hex = λ bytes. bytes; sha256 = λ token. token }

abbrev pub crypto : Crypto
crypto = crypto_of argon2 token_crates

-- Every request is admitted, or the limiter answers what it is given.
abbrev pub governor_of : Result ℕ (Unit {0}) → Governor
governor_of answer = record {
  initial = 0;
  check_key = λ quota now key s. (answer, s);
  retain_recent = λ quota now s. s;
}

-- The letters of ASCII.
abbrev pub unicode : Unicode
unicode = record {
  to_lowercase = λ s. s;
  is_uppercase = λ c. leb b'A' c && leb c b'Z';
  is_lowercase = λ c. leb b'a' c && leb c b'z';
  is_alphanumeric =
      λ c. (leb b'A' c && leb c b'Z') || (leb b'a' c && leb c b'z') || (leb b'0' c && leb c b'9');
}

-- ===== src/Services/Whitelist.antt =====
-- services/whitelist.rs: the addresses from which an account may log in.
pub mod Laws
use ch_api_authenticator.Base.{
  String, Bool, true, false, ◌&&◌, ◌||◌, Option, none, some, List, [], ◌∷◌, if◌then◌else◌,
}
use ch_api_authenticator.Base.Lists.{any}
use ch_api_authenticator.Base.Text.{trim}
use ch_api_authenticator.Exec.{Result, ok, err}
use ch_api_authenticator.Services.Net.{IpAddr, IpNet, eq_ip, Net}

abbrev pub is_none {ℓ} : {A : Type ℓ} → Option A → Bool
is_none none = true
is_none (some a) = false

module _ (net : Net) where
  open net use {parse_ip, parse_net}

  -- The first entry that is no network and no address.
  unfoldable pub validate_entries : List String → Result String (Unit {0})
  validate_entries [] = ok tt
  validate_entries (entry ∷ entries) =
      let rest = validate_entries entries in
      if is_none (parse_net (trim entry)) && is_none (parse_ip (trim entry))
      then err (trim entry)
      else rest

  -- The closure of `ip_allowed`, on a trimmed entry.
  unfoldable pub entry_allows : IpAddr → String → Bool
  entry_allows client_ip entry = elim (parse_net entry) [
    | some network ↦ network client_ip
    | none ↦ elim (parse_ip entry) [ some ip ↦ eq_ip ip client_ip | none ↦ false ]
  ]

  unfoldable pub ip_allowed : IpAddr → List String → Bool
  unfolding entry_allows
  ip_allowed client_ip allowed = any (λ entry. entry_allows client_ip (trim entry)) allowed

-- ===== src/Services/ClientIp.antt =====
-- services/client_ip.rs: the address of a client, which only a trusted proxy may state.
pub mod Laws
use ch_api_authenticator.Base.{
  String, Bool, true, false, ◌==◌, Option, none, some, List, [], ◌∷◌, if◌then◌else◌,
}
use ch_api_authenticator.Base.Lists.{any}
use ch_api_authenticator.Base.Text.{trim, split, is_empty}
use ch_api_authenticator.Services.Net.{IpAddr, IpNet, Headers, Net}

abbrev pub client_ip_header : String
client_ip_header = "x-client-ip"

abbrev pub default_trusted_proxies : String
default_trusted_proxies = "127.0.0.1,::1"

pub record TrustedProxies : Type 0 where
  pub networks : List IpNet

-- `TrustedProxies::contains`
unfoldable pub contains : TrustedProxies → IpAddr → Bool
contains proxies ip = any (λ network. network ip) proxies.networks

module _ (net : Net) where
  open net use {parse_ip, parse_net, net_of}

  abbrev ip_network : Option IpAddr → Option IpNet
  ip_network none = none
  ip_network (some ip) = some (net_of ip)

  abbrev or_ip : Option IpNet → Option IpNet → Option IpNet
  or_ip (some network) other = some network
  or_ip none other = other

  unfoldable pub parse_network : String → Option IpNet
  parse_network entry =
      if is_empty entry then none else or_ip (parse_net entry) (ip_network (parse_ip entry))

  -- `filter_map(|entry| parse_network(entry.trim()))`
  unfoldable pub parse_networks : List String → List IpNet
  parse_networks [] = []
  parse_networks (entry ∷ entries) =
      let rest = parse_networks entries in
      elim (parse_network (trim entry)) [ none ↦ rest | some network ↦ network ∷ rest ]

  -- `TrustedProxies::parse`
  unfoldable pub parse : String → TrustedProxies
  parse raw = record { networks = parse_networks (split b',' raw) }

  -- `TrustedProxies::from_env`, given the value of AUTH_TRUSTED_PROXIES.
  unfoldable pub from_env : Option String → TrustedProxies
  from_env none = parse default_trusted_proxies
  from_env (some raw) = parse (if is_empty (trim raw) then default_trusted_proxies else raw)

  unfoldable pub forwarded_client_ip : Headers → Option IpAddr
  forwarded_client_ip headers = elim (headers client_ip_header) [
    | none ↦ none
    | some value ↦ parse_ip (trim value)
  ]

  -- `TrustedProxies::resolve`
  unfoldable pub resolve : TrustedProxies → IpAddr → Headers → IpAddr
  unfolding contains forwarded_client_ip
  resolve proxies peer_ip headers =
      if contains proxies peer_ip
      then elim (forwarded_client_ip headers) [ none ↦ peer_ip | some ip ↦ ip ]
      else peer_ip

-- ===== src/Services/Net.antt =====
-- Addresses and networks, as services/client_ip.rs and services/whitelist.rs use them. Parsing and
-- printing are the standard library's and the `ipnet` crate's, and parameters of the model.
use ch_api_authenticator.Base.{
  ℕ, String, ◌≡◌, ◌↔◌, Bool, true, false, Option, none, some, arith, eqb,
}

pub data IpAddr : Type 0 where
  v4 v6 : ℕ → IpAddr

abbrev pub eq_ip : IpAddr → IpAddr → Bool
eq_ip (v4 a) (v4 b) = eqb a b
eq_ip (v6 a) (v6 b) = eqb a b
eq_ip _ _ = false

pub eq_ip_iff : (a b : IpAddr) → (eq_ip a b ≡ true) ↔ (a ≡ b)
eq_ip_iff (v4 a) (v4 b) = ground arith
eq_ip_iff (v4 a) (v6 b) = ground arith
eq_ip_iff (v6 a) (v4 b) = ground arith
eq_ip_iff (v6 a) (v6 b) = ground arith

-- A network is known to the program only by `contains`.
abbrev pub IpNet : Type 0
IpNet = IpAddr → Bool

-- The headers of a request: the first value of a name, where it is text (`get(..)`, `to_str().ok()`).
abbrev pub Headers : Type 0
Headers = String → Option String

pub record Net : Type 0 where
  pub parse_ip : String → Option IpAddr
  pub show_ip : IpAddr → String
  pub parse_net : String → Option IpNet
  -- `IpNet::from(ip)`
  pub net_of : IpAddr → IpNet
  -- An address reads back from its print, which has no prefix length and no white space; its network
  -- holds it alone.
  pub parse_ip-show_ip : (ip : IpAddr) → parse_ip (show_ip ip) ≡ some ip
  pub parse_net-show_ip : (ip : IpAddr) → parse_net (show_ip ip) ≡ none
  pub net_of_lem : (ip other : IpAddr) → net_of ip other ≡ eq_ip ip other

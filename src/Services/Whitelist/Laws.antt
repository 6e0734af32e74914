-- ===== src/Services/Whitelist/Laws.antt =====
-- When an address is allowed.
use ch_api_authenticator.Base.{
  String, ◌≡◌, refl, ◌↔◌, ◌⊎◌, inl, inr, Option-cases, Bool-cases, ◌&&◌, true, false, none, some,
  List, [], ◌∷◌, arith,
}
use ch_api_authenticator.Base.Lists.{All}
use ch_api_authenticator.Base.Text.{trim}
use ch_api_authenticator.Exec.{ok}
use ch_api_authenticator.Services.Net.{IpAddr, IpNet, eq_ip_iff, Net}
use ch_api_authenticator.Services.Whitelist.{is_none, validate_entries, entry_allows, ip_allowed}

module _ (net : Net) where
  open net use {parse_ip, parse_net}

  -- A text is a network, or an address.
  abbrev pub IsEntry : String → Type 0
  IsEntry entry =
      ((network : IpNet) × (parse_net entry ≡ some network))
      ⊎ ((ip : IpAddr) × (parse_ip entry ≡ some ip))

  -- An entry admits an address: a network that holds it, or, if it is no network, the address.
  abbrev pub Admits : IpAddr → String → Type 0
  Admits client_ip entry =
      ((network : IpNet) × (parse_net entry ≡ some network) × (network client_ip ≡ true))
      ⊎ ((parse_net entry ≡ none) × (parse_ip entry ≡ some client_ip))

  -- Some entry of the list, trimmed, admits the address.
  abbrev pub SomeAdmits : IpAddr → List String → Type 0
  SomeAdmits client_ip [] = ⊥
  SomeAdmits client_ip (entry ∷ entries) =
      Admits client_ip (trim entry) ⊎ SomeAdmits client_ip entries

  entry_allows-Admits :
      (client_ip : IpAddr) (entry : String)
      → entry_allows net client_ip entry ≡ true
      → Admits client_ip entry
  unfolding entry_allows
  entry_allows-Admits client_ip entry h = elim (Option-cases (parse_net entry)) [
    | inr (network, e) ↦ inl (network, e, ground arith)
    | inl e ↦ elim (Option-cases (parse_ip entry)) [
      | inr (ip, e') ↦ inr (e, ground (arith, eq_ip_iff ip client_ip))
      | inl e' ↦ absurd (ground arith)
    ]
  ]

  Admits-entry_allows :
      (client_ip : IpAddr) (entry : String)
      → Admits client_ip entry
      → entry_allows net client_ip entry ≡ true
  unfolding entry_allows
  Admits-entry_allows client_ip entry (inl (network, e, h)) = ground arith
  Admits-entry_allows client_ip entry (inr (e, e')) = ground (arith, eq_ip_iff client_ip client_ip)

  -- An address is allowed exactly if some entry of the list, trimmed, is a network that holds
  -- it or, being no network, an address equal to it.
  pub ip_allowed_iff :
      (client_ip : IpAddr) (allowed : List String)
      → (ip_allowed net client_ip allowed ≡ true) ↔ SomeAdmits client_ip allowed
  unfolding ip_allowed
  ip_allowed_iff client_ip [] = ((λ e. cc), λ h. absurd h)
  ip_allowed_iff client_ip (entry ∷ entries) =
      let (to, from) = ip_allowed_iff client_ip entries in
      (
        (λ e. elim (Bool-cases (entry_allows net client_ip (trim entry))) [
          | inl h ↦ inl (entry_allows-Admits client_ip (trim entry) h)
          | inr h ↦ inr (to (ground arith))
        ]),
        elim [
          | inl h ↦ ground (arith, Admits-entry_allows client_ip (trim entry) h)
          | inr h ↦ ground (arith, from h)
        ],
      )

  IsEntry-is_none :
      (entry : String)
      → (is_none (parse_net entry) && is_none (parse_ip entry)) ≡ false
      → IsEntry entry
  IsEntry-is_none entry h = elim (Option-cases (parse_net entry)) [
    | inr found ↦ inl found
    | inl e ↦ elim (Option-cases (parse_ip entry)) [
      | inr found ↦ inr found
      | inl e' ↦ absurd (ground arith)
    ]
  ]

  is_none-IsEntry :
      (entry : String)
      → IsEntry entry
      → (is_none (parse_net entry) && is_none (parse_ip entry)) ≡ false
  is_none-IsEntry entry (inl (network, e)) = ground arith
  is_none-IsEntry entry (inr (ip, e)) = ground arith

  -- A list of entries is accepted exactly if each of them, trimmed, is a network or an
  -- address.
  pub validate_entries_iff :
      (entries : List String)
      → (validate_entries net entries ≡ ok tt) ↔ All (λ entry. IsEntry (trim entry)) entries
  unfolding validate_entries
  validate_entries_iff [] = ((λ e. tt), λ h. refl)
  validate_entries_iff (entry ∷ entries) =
      let (to, from) = validate_entries_iff entries in
      (
        (λ e. (IsEntry-is_none (trim entry) (ground arith), to (ground arith))),
        λ h. ground (arith, is_none-IsEntry (trim entry) h.0, from h.1),
      )

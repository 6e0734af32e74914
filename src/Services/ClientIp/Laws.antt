-- ===== src/Services/ClientIp/Laws.antt =====
-- Who decides the address of a client.
use ch_api_authenticator.Exec.Laws.{some_injective}
use ch_api_authenticator.Exec.Laws.{none-ne-some}
use ch_api_authenticator.Base.{ap, sym, ◌∙◌}
use ch_api_authenticator.Base.Text.{trim}
use ch_api_authenticator.Base.Lists.{any}
use ch_api_authenticator.Services.Net.{IpNet}
use ch_api_authenticator.Base.{Bool-cases, List, Option-cases, String, [], inl, inr, ◌↔◌, ◌∷◌}
use ch_api_authenticator.Base.{◌≡◌, ◌⊎◌, true, false, none, some, arith}
use ch_api_authenticator.Services.Net.{IpAddr, Headers, Net}
use ch_api_authenticator.Services.ClientIp.{TrustedProxies, contains, forwarded_client_ip, resolve}

module _ (net : Net) where
  -- A peer outside the trusted networks keeps its own address whatever headers it sends, and behind
  -- a trusted proxy the address is the one that the header states, if it states one.
  pub resolve_cases :
      (proxies : TrustedProxies) (peer : IpAddr) (headers : Headers)
      → ((contains proxies peer ≡ false) × (resolve net proxies peer headers ≡ peer))
        ⊎ ((contains proxies peer ≡ true)
            × (((forwarded_client_ip net headers ≡ none)
                  × (resolve net proxies peer headers ≡ peer))
                ⊎ (forwarded_client_ip net headers ≡ some (resolve net proxies peer headers))))
  unfolding resolve
  resolve_cases proxies peer headers = ground arith

  -- Some of the networks holds the address.
  abbrev pub SomeHolds : List IpNet → IpAddr → Type 0
  SomeHolds [] ip = ⊥
  SomeHolds (network ∷ networks) ip = (network ip ≡ true) ⊎ SomeHolds networks ip

  -- The header of the client's address is there, and reads as this address.
  abbrev pub States : Headers → IpAddr → Type 0
  States headers ip =
      (value : String) × (headers "x-client-ip" ≡ some value)
      × (net.parse_ip (trim value) ≡ some ip)

  any-SomeHolds :
      (networks : List IpNet) (ip : IpAddr)
      → (any (λ network. network ip) networks ≡ true) ↔ SomeHolds networks ip
  any-SomeHolds [] ip = ((λ e. cc), λ h. absurd h)
  any-SomeHolds (network ∷ networks) ip =
      let (to, from) = any-SomeHolds networks ip in
      (
        (λ e. elim (Bool-cases (network ip)) [ inl h ↦ inl h | inr h ↦ inr (to (ground arith)) ]),
        elim [ inl h ↦ ground arith | inr h ↦ ground (arith, from h) ],
      )

  forwarded_client_ip-States :
      (headers : Headers) (ip : IpAddr)
      → (forwarded_client_ip net headers ≡ some ip) ↔ States headers ip
  unfolding forwarded_client_ip
  forwarded_client_ip-States headers ip = (
    (λ e. elim (Option-cases (headers "x-client-ip")) [
      | inl absent ↦ absurd (ground arith)
      | inr (value, is_value) ↦ (value, is_value, ground arith)
    ]),
    λ h. ground arith,
  )

  module _ (proxies : TrustedProxies) (peer : IpAddr) (headers : Headers) where
    resolve-stated :
        (own : IpAddr)
        → contains proxies peer ≡ true
        → forwarded_client_ip net headers ≡ some own
        → resolve net proxies peer headers ≡ own
    unfolding resolve
    resolve-stated own inside stated = ground arith

    resolve-outside : contains proxies peer ≡ false → resolve net proxies peer headers ≡ peer
    unfolding resolve
    resolve-outside outside = ground arith

    resolve-unstated :
        forwarded_client_ip net headers ≡ none → resolve net proxies peer headers ≡ peer
    unfolding resolve
    resolve-unstated unstated = ground arith

  -- The address of a client is the one that the header x-client-ip states, trimmed, exactly if a
  -- trusted network holds the peer and the header states one; it is the peer's in every other case.
  pub resolve_iff :
      (proxies : TrustedProxies) (peer : IpAddr) (headers : Headers) (ip : IpAddr)
      → (resolve net proxies peer headers ≡ ip) ↔ (
          (SomeHolds proxies.networks peer × States headers ip)
          ⊎ ((¬ (SomeHolds proxies.networks peer) ⊎ ((other : IpAddr) → ¬ (States headers other)))
              × (peer ≡ ip)))
  unfolding contains
  resolve_iff proxies peer headers ip =
      let (holds, held) = any-SomeHolds proxies.networks peer in
      elim (Bool-cases (contains proxies peer)) [
        | inr outside ↦
            let out : ¬ (SomeHolds proxies.networks peer) = λ h. absurd (ground (arith, held h)) in
            (
              (λ e. inr (inl out, sym (resolve-outside proxies peer headers outside) ∙ e)),
              λ h. elim h [
                | inl (inside, _) ↦ absurd (out inside)
                | inr (_, same) ↦ resolve-outside proxies peer headers outside ∙ same
              ],
            )
        | inl inside ↦ elim (Option-cases (forwarded_client_ip net headers)) [
          | inl unstated ↦
              let silent : (other : IpAddr) → ¬ (States headers other) = λ other h.
                none-ne-some (sym unstated ∙ (forwarded_client_ip-States headers other).1 h) in
              (
                (λ e. inr (inr silent, sym (resolve-unstated proxies peer headers unstated) ∙ e)),
                λ h. elim h [
                  | inl (_, stated) ↦ absurd (silent ip stated)
                  | inr (_, same) ↦ resolve-unstated proxies peer headers unstated ∙ same
                ],
              )
          | inr (own, stated) ↦
              let is_own = resolve-stated proxies peer headers own inside stated in
              (
                (λ e. inl (
                  holds inside,
                  (forwarded_client_ip-States headers ip).0 (stated ∙ ap some (sym is_own ∙ e)),
                )),
                λ h. elim h [
                  | inl (_, states) ↦
                      is_own
                      ∙ some_injective _ _
                          (sym stated ∙ (forwarded_client_ip-States headers ip).1 states)
                  | inr (inl out, _) ↦ absurd (out (holds inside))
                  | inr (inr silent, _) ↦
                      absurd (silent own ((forwarded_client_ip-States headers own).0 stated))
                ],
              )
        ]
      ]

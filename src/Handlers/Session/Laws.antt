-- ===== src/Handlers/Session/Laws.antt =====
-- What a renewed session rests on.
use ch_api_authenticator.State.{seconds}
use ch_api_authenticator.Services.Jwt.{issue}
use ch_api_authenticator.Handlers.Session.Create.Laws.{create_session_in_family-eq-ok}
use ch_api_authenticator.Domain.User.{ObjectId}
use ch_api_authenticator.Base.{sym}
use ch_api_authenticator.Base.{subst}
use ch_api_authenticator.Base.{ap}
use ch_api_authenticator.Base.{◌∙◌}
use mathlib.Core.Option
use ch_api_authenticator.Base.{String, ◌≡◌, ◌⊎◌, true, false, Option, none, some, arith}
use ch_api_authenticator.Base.Lists.{find}
use ch_api_authenticator.Error.{invalid_token}
use ch_api_authenticator.Exec.{ok, ◌>>=◌}
use ch_api_authenticator.Exec.Laws.{invert, relabel-eq-ok, ok_or-eq-ok}
use ch_api_authenticator.Domain.User.{User}
use ch_api_authenticator.Repository.Users.{has_id, loaded}
use ch_api_authenticator.Repository.Users.Calls.{find_by_id-ok}
use ch_api_authenticator.Repository.RefreshTokens.{
  RefreshToken, RotationOutcome, rotated, reuse_detected, unknown, is_usable,
}
use ch_api_authenticator.Repository.RefreshTokens.Calls.{consume-rotated}
use ch_api_authenticator.Services.Net.{IpAddr}
use ch_api_authenticator.Services.ClientIp.{resolve}
use ch_api_authenticator.Services.Whitelist.{ip_allowed}
use ch_api_authenticator.State.{Platform, AppState, Ambient, World, enforce_refresh}
use ch_api_authenticator.Handlers.Cookies.{cookie_value}
use ch_api_authenticator.Handlers.Session.Create.{Session}
use ch_api_authenticator.Handlers.Session.{consumed_token, existing_user, token_ip_of, refresh}

module _ (x : Platform) (state : AppState) (ambient : Ambient) where
  abbrev pub client_ip : IpAddr
  client_ip = resolve x.net state.trusted_proxies ambient.peer ambient.headers

  -- The session that `refresh` returned rests on this.
  pub record IsRenewal (w : World) (session : Session) : Type 0 where
    pub token : String
    pub stored : RefreshToken
    pub user : User
    pub id : ObjectId
    pub token_ip : Option String
    pub presented :
        cookie_value ambient.headers state.settings.config.token.refresh_cookie_name ≡ some token
    pub usable :
        find (is_usable (x.crypto.hash_token token) (ambient.clock 0)) w.refresh_tokens.docs
        ≡ some stored
    pub account : Option.map loaded (find (has_id stored.user_id) w.users.docs) ≡ some user
    pub allowed :
        ((user.whitelist_only ≡ false) × (token_ip ≡ none))
        ⊎ ((ip_allowed x.net client_ip user.allowed_ips ≡ true)
            × (token_ip ≡ some (x.net.show_ip client_ip)))
    pub identified : user.id ≡ some id
    pub issued :
        issue x.jwt x.to_hex state.jwt (seconds (ambient.clock 1)) id user.roles token_ip
        ≡ some session.access_token

  pub consumed_token-eq-ok :
      (outcome : RotationOutcome) (w : World) (token : RefreshToken)
      → (consumed_token x state ambient outcome w).0 ≡ ok token
      → (outcome ≡ rotated token) × ((consumed_token x state ambient outcome w).1 ≡ w)
  unfolding consumed_token ◌>>=◌
  consumed_token-eq-ok (rotated t) w token e = ground arith
  consumed_token-eq-ok (reuse_detected t) w token e = cc
  consumed_token-eq-ok unknown w token e = cc

  existing_user-eq-ok :
      (consumed : RefreshToken) (found : Option User) (w : World) (user : User)
      → (existing_user x state ambient consumed found w).0 ≡ ok user
      → (found ≡ some user) × ((existing_user x state ambient consumed found w).1 ≡ w)
  unfolding existing_user ◌>>=◌
  existing_user-eq-ok consumed (some u) w user e = ground arith
  existing_user-eq-ok consumed none w user e = cc

  token_ip_of-eq-ok :
      (user : User) (token_ip : Option String)
      → token_ip_of x state ambient client_ip user ≡ ok token_ip
      → ((user.whitelist_only ≡ false) × (token_ip ≡ none))
        ⊎ ((ip_allowed x.net client_ip user.allowed_ips ≡ true)
            × (token_ip ≡ some (x.net.show_ip client_ip)))
  unfolding token_ip_of
  token_ip_of-eq-ok user token_ip e = ground arith

  -- A session is renewed only for a presented token that is known, not revoked and not
  -- expired, whose account exists, and from an address that the account allows if it is
  -- restricted to some; the access token is issued for the account's id and its present roles.
  pub refresh-IsRenewal :
      (w : World) (session : Session)
      → (refresh x state ambient w).0 ≡ ok session
      → IsRenewal w session
  unfolding refresh enforce_refresh
  refresh-IsRenewal w session e = invert _ _ _ e λ limited _ e₁.
      invert _ _ _ e₁ λ token presented e₂. invert _ _ _ e₂ λ outcome took e₃.
        invert _ _ _ e₃ λ consumed was e₄. invert _ _ _ e₄ λ found read e₅.
          invert _ _ _ e₅ λ user has e₆. invert _ _ _ e₆ λ token_ip may e₇.
            let (is_rotated, same) = consumed_token-eq-ok outcome _ consumed was in
            let (id, identified, issued) =
              create_session_in_family-eq-ok x state _ _ _ user token_ip _ _ session e₇ in
            let (is_found, _) = existing_user-eq-ok consumed found _ user has in
            record {
              token = token;
              stored = consumed;
              user = user;
              id = id;
              token_ip = token_ip;
              presented = ok_or-eq-ok _ invalid_token presented;
              usable =
                  (consume-rotated x.refresh_tokens _ _ w.refresh_tokens consumed
                    (relabel-eq-ok _ _ took ∙ ap ok is_rotated)).0;
              account =
                  subst
                    (λ v.
                      Option.map loaded (find (has_id consumed.user_id) v.users.docs) ≡ some user)
                    same
                    (sym (find_by_id-ok x.users _ _ found (relabel-eq-ok _ _ read)) ∙ is_found);
              allowed = token_ip_of-eq-ok user token_ip may;
              identified = identified;
              issued = issued;
            }

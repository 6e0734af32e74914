-- ===== src/Handlers/Login/Laws.antt =====
-- What an opened session rests on.
use ch_api_authenticator.State.{enforce_login}
use mathlib.Core.Option
use ch_api_authenticator.Handlers.Login.{token_ip_of}
use ch_api_authenticator.Handlers.Login.{remember_ip}
use ch_api_authenticator.Services.ClientIp.{resolve}
use ch_api_authenticator.Services.Jwt.{issue}
use ch_api_authenticator.Services.Whitelist.{ip_allowed}
use ch_api_authenticator.Exec.Laws.{invert, relabel-eq-ok}
use ch_api_authenticator.Repository.Users.{has_email, loaded}
use ch_api_authenticator.Repository.Users.Calls.{find_by_email-ok}
use ch_api_authenticator.Base.Lists.{find}
use ch_api_authenticator.Handlers.Session.Create.Laws.{create_session_in_family-eq-ok}
use ch_api_authenticator.Handlers.Session.Create.{Session, create_session}
use ch_api_authenticator.Exec.{Result, ok, ◌>>=◌}
use ch_api_authenticator.Base.{
  Option, String, arith, false, none, refl, some, sym, true, ◌∙◌, ◌≡◌, ◌⊎◌,
}
use ch_api_authenticator.Handlers.Login.{LoginRequest, authenticate, login, require_active}
use ch_api_authenticator.Error.{JsonRejection}
use ch_api_authenticator.Services.Net.{IpAddr}
use ch_api_authenticator.State.{Ambient, AppState, Platform, World, seconds}
use ch_api_authenticator.Domain.User.{
  AccountStatus, ObjectId, User, active, disabled, normalize_email, pending_validation,
}

module _ (x : Platform) (state : AppState) (ambient : Ambient) where
  abbrev pub login_ip : IpAddr
  login_ip = resolve x.net state.trusted_proxies ambient.peer ambient.headers

  -- The session that `login` opened rests on this.
  pub record IsLogin (w : World) (request : LoginRequest) (session : Session) : Type 0 where
    pub user : User
    pub id : ObjectId
    pub token_ip : Option String
    pub account :
        Option.map loaded
          (find (has_email (normalize_email x.unicode.to_lowercase request.email)) w.users.docs)
        ≡ some user
    pub verified : x.crypto.verify_password request.password user.password_hash ≡ true
    pub is_active : user.status ≡ active
    pub allowed :
        ((user.whitelist_only ≡ false) × (token_ip ≡ none))
        ⊎ ((ip_allowed x.net login_ip user.allowed_ips ≡ true)
            × (token_ip ≡ some (x.net.show_ip login_ip)))
    pub identified : user.id ≡ some id
    pub issued :
        issue x.jwt x.to_hex state.jwt (seconds (ambient.clock 2)) id user.roles token_ip
        ≡ some session.access_token

  authenticate-eq-ok :
      (password : String) (found : Option User) (user : User)
      → authenticate x state ambient password found ≡ ok user
      → (found ≡ some user) × (x.crypto.verify_password password user.password_hash ≡ true)
  authenticate-eq-ok password none user e = cc
  authenticate-eq-ok password (some found) user e = ground arith

  require_active-eq-ok : (status : AccountStatus) → require_active status ≡ ok tt → status ≡ active
  require_active-eq-ok active e = refl
  require_active-eq-ok pending_validation e = cc
  require_active-eq-ok disabled e = cc

  remember_ip-ok :
      (user : User) (id : Option ObjectId) (w : World)
      → (remember_ip x state ambient login_ip user id w).0 ≡ ok tt
  unfolding remember_ip ◌>>=◌
  remember_ip-ok user none w = refl
  remember_ip-ok user (some id) w = ground arith

  token_ip_of-eq-ok :
      (user : User) (w : World) (token_ip : Option String)
      → (token_ip_of x state ambient login_ip user w).0 ≡ ok token_ip
      → ((user.whitelist_only ≡ false) × (token_ip ≡ none))
        ⊎ ((ip_allowed x.net login_ip user.allowed_ips ≡ true)
            × (token_ip ≡ some (x.net.show_ip login_ip)))
  unfolding token_ip_of ◌>>=◌
  token_ip_of-eq-ok user w token_ip e = ground (arith, remember_ip-ok user user.id w)

  -- A login opens a session only for a request whose email, normalized, is that of an account
  -- whose password verifies and whose status is active, from an address that the account
  -- allows if it is restricted to some; the access token is issued for the account's id and
  -- roles, and bound to the address of a restricted account.
  pub login-IsLogin :
      (w : World) (payload : Result JsonRejection LoginRequest) (session : Session)
      → (login x state ambient payload w).0 ≡ ok session
      → (request : LoginRequest) × (payload ≡ ok request) × IsLogin w request session
  unfolding login create_session enforce_login
  login-IsLogin w payload session e = invert _ _ _ e λ request accepts e₁. invert _ _ _ e₁ λ _ _ e₂.
      invert _ _ _ e₂ λ limited _ e₃. invert _ _ _ e₃ λ found read e₄.
        invert _ _ _ e₄ λ user is_user e₅. invert _ _ _ e₅ λ _ status e₆.
          invert _ _ _ e₆ λ token_ip may e₇. invert _ _ _ e₇ λ _ _ e₈.
            let (is_found, verified) = authenticate-eq-ok request.password found user is_user in
            let (id, identified, issued) =
              create_session_in_family-eq-ok x state _ _ _ user token_ip _ _ session e₈ in
            (
              request,
              relabel-eq-ok _ _ accepts,
              record {
                user = user;
                id = id;
                token_ip = token_ip;
                account =
                    sym (find_by_email-ok x.users _ _ _ found (relabel-eq-ok _ _ read)) ∙ is_found;
                verified = verified;
                is_active = require_active-eq-ok user.status status;
                allowed = token_ip_of-eq-ok user _ token_ip may;
                identified = identified;
                issued = issued;
              },
            )

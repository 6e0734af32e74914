-- ===== src/Service/History/Accounts.antt =====
-- The accounts over every history of the service.
use ch_api_authenticator.Service.Policy.{Given}
use ch_api_authenticator.Repository.Users.Unique.{same_account-sym, with_allowed_ip-is_nil}
use ch_api_authenticator.Handlers.Session.Laws.{client_ip}
use ch_api_authenticator.Domain.User.{accept_terms, new}
use ch_api_authenticator.Service.Policy.{
  Step, edits_addresses, edits_email, edits_name, edits_password, edits_roles, edits_status,
  edits_whitelist,
}
use ch_api_authenticator.Service.History.{History, History-keeps, IsKept}
use ch_api_authenticator.Mongo.Docs.{All-modify_first, All-remove_first}
use ch_api_authenticator.Base.Lists.{All-append}
use ch_api_authenticator.Repository.Users.{has_id, identify, same_account}
use ch_api_authenticator.Mongo.Unique.{
  conflict_free, conflict_free-append, conflict_free-remove_first,
}
use ch_api_authenticator.Handlers.Register.{RegisterRequest, registered}
use ch_api_authenticator.Domain.User.{ObjectId, User, normalize_email}
use ch_api_authenticator.Base.{List, String, arith, false, refl, some, subst, sym, true, ◌&&◌, ◌≡◌}
use ch_api_authenticator.State.{Ambient, AppState, Platform, World}
use ch_api_authenticator.Base.Lists.{All, is_nil}
use ch_api_authenticator.Service.Policy.{AccountsWrite, Edit, registers}
use ch_api_authenticator.Repository.Users

-- No two accounts have one email or one id.
abbrev pub AccountsAreUnique : World → Type 0
AccountsAreUnique w = conflict_free Users.same_account w.users.docs ≡ true

-- What a stored account owes to the code that wrote it: its password is a hash of the crypto
-- library, its email is in normal form, and it is never closed to every address.
pub record IsSound (x : Platform) (user : User) : Type 0 where
  pub hashed :
      (salt : String) × (password : String) × (x.crypto.hash_password salt password
        ≡ some user.password_hash)
  pub normal : (email : String) × (user.email ≡ normalize_email x.unicode.to_lowercase email)
  pub reachable : user.whitelist_only && is_nil user.allowed_ips ≡ false

abbrev pub AccountsAreSound : Platform → World → Type 0
AccountsAreSound x w = All (IsSound x) w.users.docs

module _ (x : Platform) (state : AppState) (ambient : Ambient) where
  unique-Write :
      (given : Given) (before after : List User)
      → AccountsWrite x state ambient given before after
      → conflict_free Users.same_account before ≡ true
      → conflict_free Users.same_account after ≡ true
  unique-Write given before after (AccountsWrite.keeps same) free =
      subst (λ ds. conflict_free Users.same_account ds ≡ true) (sym same) free
  unique-Write given before after (registers request hash id checks hashed fresh wrote) free =
      subst (λ ds. conflict_free Users.same_account ds ≡ true) (sym wrote)
        (conflict_free-append Users.same_account same_account-sym _ before fresh free)
  unique-Write given before after (AccountsWrite.edits id change edit unique wrote) free =
      unique free
  unique-Write given before after (AccountsWrite.deletes id right wrote) free =
      subst (λ ds. conflict_free Users.same_account ds ≡ true) (sym wrote)
        (conflict_free-remove_first Users.same_account (Users.has_id id) before free)

  -- Whatever a request may change of an account, a sound one stays sound.
  IsSound-Edit :
      {given : Given} (id : ObjectId) (change : User → User) (user : User)
      → Edit x state ambient given id change
      → IsSound x user
      → IsSound x (change user)
  IsSound-Edit id change user (edits_roles now list right e) s =
      subst (λ f. IsSound x (f user)) (sym e)
        (record { hashed = s.hashed; normal = s.normal; reachable = s.reachable })
  IsSound-Edit id change user (edits_whitelist now only ips right open_to e) s =
      subst (λ f. IsSound x (f user)) (sym e)
        (record { hashed = s.hashed; normal = s.normal; reachable = open_to })
  IsSound-Edit id change user (edits_status now status right e) s =
      subst (λ f. IsSound x (f user)) (sym e)
        (record { hashed = s.hashed; normal = s.normal; reachable = s.reachable })
  IsSound-Edit id change user (edits_name now name right named e) s =
      subst (λ f. IsSound x (f user)) (sym e)
        (record { hashed = s.hashed; normal = s.normal; reachable = s.reachable })
  IsSound-Edit id change user (edits_email now email right e) s =
      subst (λ f. IsSound x (f user)) (sym e)
        (record { hashed = s.hashed; normal = (email, refl); reachable = s.reachable })
  IsSound-Edit id change user (edits_addresses now right e) s =
      subst (λ f. IsSound x (f user)) (sym e)
        (record {
          hashed = s.hashed;
          normal = s.normal;
          reachable =
              ground (
                arith,
                with_allowed_ip-is_nil now (x.net.show_ip (client_ip x state ambient)) user,
              );
        })
  IsSound-Edit id change user (edits_password now password hash right strong hashed e) s =
      subst (λ f. IsSound x (f user)) (sym e)
        (record {
          hashed = (ambient.salt, password, hashed);
          normal = s.normal;
          reachable = s.reachable;
        })

  registered-IsSound :
      (request : RegisterRequest) (hash : String) (id : ObjectId)
      → x.crypto.hash_password ambient.salt request.password ≡ some hash
      → IsSound x (Users.identify id (registered x state ambient request hash))
  unfolding registered accept_terms new
  registered-IsSound request hash id hashed = record {
    hashed = (ambient.salt, request.password, hashed);
    normal = (request.email, refl);
    reachable = refl;
  }

  IsSound-Write :
      (given : Given) (before after : List User)
      → AccountsWrite x state ambient given before after
      → All (IsSound x) before
      → All (IsSound x) after
  IsSound-Write given before after (AccountsWrite.keeps same) sound =
      subst (All (IsSound x)) (sym same) sound
  IsSound-Write given before after (registers request hash id checks hashed fresh wrote) sound =
      subst (All (IsSound x)) (sym wrote)
        (All-append (IsSound x) before _ sound (registered-IsSound request hash id hashed, tt))
  IsSound-Write given before after (AccountsWrite.edits id change edit unique wrote) sound =
      subst (All (IsSound x)) (sym wrote) (
        All-modify_first (IsSound x) (Users.has_id id) change before
          (λ user. IsSound-Edit id change user edit) sound)
  IsSound-Write given before after (AccountsWrite.deletes id right wrote) sound =
      subst (All (IsSound x)) (sym wrote)
        (All-remove_first (IsSound x) (Users.has_id id) before sound)

-- A property of the accounts alone, which each write to them keeps.
module _ {x : Platform} {state : AppState} (P : List User → Type 0)
    (k : (ambient : Ambient) (given : Given) (before after : List User)
      → AccountsWrite x state ambient given before after
      → P before
      → P after) where
  accounts-Step :
      (ambient : Ambient) (given : Given) (v w : World)
      → Step x state ambient given v w
      → P v.users.docs
      → P w.users.docs
  accounts-Step ambient given v w (Step.accounts u s write) held =
      k ambient given u.users.docs s.docs write held
  accounts-Step ambient given v w (Step.roles u s write) held = held
  accounts-Step ambient given v w (Step.settings u s right) held = held
  accounts-Step ambient given v w (Step.login_events u s) held = held
  accounts-Step ambient given v w (Step.reset_tokens u s write) held = held
  accounts-Step ambient given v w (Step.refresh_tokens u s write) held = held
  accounts-Step ambient given v w (Step.limits u a b c) held = held
  accounts-Step ambient given v w (Step.mails u email) held = held
  accounts-Step ambient given v w (Step.publishes u event right) held = held

  accounts-IsKept : {Allowed : Ambient → Type 0} → IsKept x state Allowed (λ w. P w.users.docs)
  accounts-IsKept = record {
    by_step = λ ambient given v w a step held. accounts-Step ambient given v w step held;
    by_refresh = λ p seed w held. held;
    by_reset = λ p seed w held. held;
  }

module _ (x : Platform) (state : AppState) (Allowed : Ambient → Type 0) where
  -- Whatever requests are served, in any order and with any failures of the database: if no two
  -- accounts had one email or one id at the start, none have at the end.
  pub accounts_stay_unique :
      (v w : World) → History x state Allowed v w → AccountsAreUnique v → AccountsAreUnique w
  accounts_stay_unique v w history unique =
      History-keeps _
        (accounts-IsKept (λ ds. conflict_free Users.same_account ds ≡ true) (unique-Write x state))
        history unique

  -- Whatever requests are served: if at the start the password of each account was a hash of some
  -- password, its email was in normal form, and no account was restricted to an empty list of
  -- addresses, so it is at the end.
  pub accounts_stay_sound :
      (v w : World) → History x state Allowed v w → AccountsAreSound x v → AccountsAreSound x w
  accounts_stay_sound v w history sound =
      History-keeps _ (accounts-IsKept (All (IsSound x)) (IsSound-Write x state)) history sound

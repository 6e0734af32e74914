-- ===== src/Service/History/Rights.antt =====
-- What a request without an administrator's token cannot do, and the roles of the portals.
use ch_api_authenticator.Service.Policy.{Given}
use mathlib.Core.List.{map-append}
use mathlib.Core.List.{append_assoc}
use mathlib.Core.List.{append-nil}
use mathlib.Core.List.{◌++◌}
use ch_api_authenticator.Service.Requests.Steps.{serve-Steps}
use ch_api_authenticator.Mongo.Docs.{modify_first}
use ch_api_authenticator.Repository.Users.{has_id, identify}
use ch_api_authenticator.Domain.Role.{Role}
use ch_api_authenticator.Service.Requests.{Request, serve}
use ch_api_authenticator.Handlers.Register.{RegisterRequest, registered}
use ch_api_authenticator.Handlers.Admin.Laws.{IsAdministrator}
use ch_api_authenticator.Base.{
  Bool, List, Option, String, [], ap, arith, false, inl, inr, map, refl, sym, ◌∙◌, ◌∷◌, ◌≡◌,
}
use ch_api_authenticator.State.{Ambient, AppState, Platform, World}
use ch_api_authenticator.Base.Lists.{All, All-append}
use ch_api_authenticator.Service.Policy.{
  AccountsWrite, Edit, RolesWrite, Step, Steps, edits_addresses, edits_email, edits_name,
  edits_password, edits_roles, edits_status, edits_whitelist, here, next, registers,
}
use ch_api_authenticator.Domain.User.{
  AccountStatus, ObjectId, User, accept_terms, new, pending_validation,
}
use ch_api_authenticator.Repository.Users

-- What of an account only an administrator may change.
pub record Rights : Type 0 where
  pub id : Option ObjectId
  pub name : String
  pub roles : List String
  pub status : AccountStatus
  pub whitelist_only : Bool

abbrev pub rights : User → Rights
rights user = record {
  id = user.id;
  name = user.name;
  roles = user.roles;
  status = user.status;
  whitelist_only = user.whitelist_only;
}

module _ (state : AppState) where
  -- An account as registration makes it: it waits for an administrator.
  pub record IsNewcomer (user : User) : Type 0 where
    pub waits : user.status ≡ pending_validation
    pub default : user.roles ≡ state.settings.config.registration.default_roles
    pub unrestricted : user.whitelist_only ≡ false

  -- The accounts of before with their rights, in their order, and newcomers behind them.
  abbrev pub Grows : List User → List User → Type 0
  Grows before after =
      (new : List User) × (map rights after ≡ map rights before ++ map rights new)
      × All IsNewcomer new

  Grows-same :
      (before after : List User) → map rights after ≡ map rights before → Grows before after
  Grows-same before after e = ([], e ∙ sym (append-nil (map rights before)), tt)

  Grows-trans : (a b c : List User) → Grows a b → Grows b c → Grows a c
  Grows-trans a b c (new, e, h) (newer, f, k) = (
    new ++ newer,
    f
        ∙ ap (λ l. l ++ map rights newer) e
        ∙ append_assoc (map rights a) (map rights new) (map rights newer)
        ∙ ap (λ l. map rights a ++ l) (sym (map-append rights new newer)),
    All-append IsNewcomer new newer h k,
  )

  -- The accounts keep their rights but for newcomers; the roles, the settings and the events that
  -- were published stay.
  pub record IsHarmless (v w : World) : Type 0 where
    pub accounts : Grows v.users.docs w.users.docs
    pub roles : w.roles.docs ≡ v.roles.docs
    pub settings : w.settings.docs ≡ v.settings.docs
    pub published : w.published ≡ v.published

map-rights-modify_first :
    (p : User → Bool) (change : User → User) (ds : List User)
    → ((user : User) → rights (change user) ≡ rights user)
    → map rights (modify_first p change ds) ≡ map rights ds
map-rights-modify_first p change [] same = refl
map-rights-modify_first p change (d ∷ ds) same =
    ground (arith, same d, map-rights-modify_first p change ds same)

module _ (x : Platform) (state : AppState) (ambient : Ambient)
    (outsider : ¬ (IsAdministrator x state ambient)) where
  Edit-rights :
      {given : Given} (id : ObjectId) (change : User → User)
      → Edit x state ambient given id change
      → (user : User) → rights (change user) ≡ rights user
  Edit-rights id change (edits_roles now list right e) user = absurd (outsider right)
  Edit-rights id change (edits_whitelist now only ips right open_to e) user =
      absurd (outsider right)
  Edit-rights id change (edits_status now status right e) user = absurd (outsider right)
  Edit-rights id change (edits_name now name right named e) user = absurd (outsider right)
  Edit-rights id change (edits_email now email right e) user = ap (λ f. rights (f user)) e
  Edit-rights id change (edits_addresses now right e) user = ap (λ f. rights (f user)) e
  Edit-rights id change (edits_password now password hash right strong hashed e) user =
      ap (λ f. rights (f user)) e

  registered-IsNewcomer :
      (request : RegisterRequest) (hash : String) (id : ObjectId)
      → IsNewcomer state (Users.identify id (registered x state ambient request hash))
  unfolding registered accept_terms new
  registered-IsNewcomer request hash id = record {
    waits = refl;
    default = refl;
    unrestricted = refl;
  }

  Grows-Write :
      {given : Given} (before after : List User)
      → AccountsWrite x state ambient given before after
      → Grows state before after
  Grows-Write before after (AccountsWrite.keeps same) =
      Grows-same state before after (ap (map rights) same)
  Grows-Write before after (registers request hash id checks hashed fresh wrote) = (
    Users.identify id (registered x state ambient request hash) ∷ [],
    ap (map rights) wrote ∙ map-append rights before _,
    (registered-IsNewcomer request hash id, tt),
  )
  Grows-Write before after (AccountsWrite.edits id change edit unique wrote) =
      Grows-same state before after (
        ap (map rights) wrote
        ∙ map-rights-modify_first (Users.has_id id) change before (Edit-rights id change edit))
  Grows-Write before after (AccountsWrite.deletes id right wrote) = absurd (outsider right)

  roles-Write :
      (before after : List Role) → RolesWrite x state ambient before after → after ≡ before
  roles-Write before after (RolesWrite.keeps same) = same
  roles-Write before after (RolesWrite.creates now name p id right free wrote) =
      absurd (outsider right)
  roles-Write before after (RolesWrite.deletes id role right found sub wrote) =
      absurd (outsider right)

  IsHarmless-refl :
      (v w : World)
      → w.users.docs ≡ v.users.docs
      → w.roles.docs ≡ v.roles.docs
      → w.settings.docs ≡ v.settings.docs
      → w.published ≡ v.published
      → IsHarmless state v w
  IsHarmless-refl v w a b c d = record {
    accounts = Grows-same state v.users.docs w.users.docs (ap (map rights) a);
    roles = b;
    settings = c;
    published = d;
  }

  IsHarmless-trans :
      (u v w : World) → IsHarmless state u v → IsHarmless state v w → IsHarmless state u w
  IsHarmless-trans u v w h k = record {
    accounts = Grows-trans state u.users.docs v.users.docs w.users.docs h.accounts k.accounts;
    roles = k.roles ∙ h.roles;
    settings = k.settings ∙ h.settings;
    published = k.published ∙ h.published;
  }

  Step-IsHarmless :
      {given : Given} (v w : World) → Step x state ambient given v w → IsHarmless state v w
  Step-IsHarmless v w (Step.accounts u s write) = record {
    accounts = Grows-Write u.users.docs s.docs write;
    roles = refl;
    settings = refl;
    published = refl;
  }
  Step-IsHarmless v w (Step.roles u s write) =
      IsHarmless-refl _ _ refl (roles-Write u.roles.docs s.docs write) refl refl
  Step-IsHarmless v w (Step.settings u s (inl same)) = IsHarmless-refl _ _ refl refl same refl
  Step-IsHarmless v w (Step.settings u s (inr right)) = absurd (outsider right)
  Step-IsHarmless v w (Step.login_events u s) = IsHarmless-refl _ _ refl refl refl refl
  Step-IsHarmless v w (Step.reset_tokens u s write) = IsHarmless-refl _ _ refl refl refl refl
  Step-IsHarmless v w (Step.refresh_tokens u s write) = IsHarmless-refl _ _ refl refl refl refl
  Step-IsHarmless v w (Step.limits u a b c) = IsHarmless-refl _ _ refl refl refl refl
  Step-IsHarmless v w (Step.mails u email) = IsHarmless-refl _ _ refl refl refl refl
  Step-IsHarmless v w (Step.publishes u event right) = absurd (outsider right)

  Steps-IsHarmless :
      {given : Given} {v w : World} → Steps x state ambient given v w → IsHarmless state v w
  Steps-IsHarmless here = IsHarmless-refl _ _ refl refl refl refl
  Steps-IsHarmless {v = v} {w = w} (next {v = u} steps step) =
      IsHarmless-trans v u w (Steps-IsHarmless steps) (Step-IsHarmless u w step)

-- Without a valid token of an administrator no request, whatever it asks, changes the roles, the
-- status, the name or the restriction of an account, or deletes one; the accounts that it
-- adds wait for an administrator and have the default roles; the catalogue of roles, the settings
-- and the events that were published stay as they were.
pub no_escalation :
    (x : Platform) (state : AppState) (ambient : Ambient) (request : Request) (w : World)
    → ¬ (IsAdministrator x state ambient)
    → IsHarmless state w (serve x state ambient request w).1
no_escalation x state ambient request w outsider =
    Steps-IsHarmless x state ambient outsider (serve-Steps x state ambient request w)

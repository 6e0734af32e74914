-- ===== src/Service/History/Catalogue.antt =====
-- The catalogue of roles over every history of the service.
use ch_api_authenticator.Service.Policy.{Given}
use mathlib.Core.List.{◌++◌}
use ch_api_authenticator.Mongo.Docs.{remove_first}
use ch_api_authenticator.Repository.Roles.{has_id}
use ch_api_authenticator.Base.Lists.{any, any-append, find}
use ch_api_authenticator.Service.Policy.{RolesWrite, Step}
use ch_api_authenticator.Domain.Role.{Portal, Role, is_portal_role, role_name}
use ch_api_authenticator.Service.History.{History, History-keeps}
use ch_api_authenticator.Base.{
  Bool, List, [], arith, false, some, subst, sym, true, ◌&&◌, ◌==◌, ◌∷◌, ◌≡◌,
}
use ch_api_authenticator.State.{Ambient, AppState, Platform, World}
use ch_api_authenticator.Repository.Roles

-- The portal's own role is in the catalogue.
abbrev pub is_role_of : Portal → Role → Bool
is_role_of p role = role.name == role_name p && is_portal_role role

abbrev pub HasPortalRole : Portal → World → Type 0
HasPortalRole p w = any (is_role_of p) w.roles.docs ≡ true

any_of_append :
    {A : Type 0} (p : A → Bool) (xs ys : List A) → any p xs ≡ true → any p (xs ++ ys) ≡ true
any_of_append p xs ys h = ground (arith, any-append p xs ys)

any_of_remove_first :
    {A : Type 0} (p q : A → Bool) (ds : List A) (d : A)
    → find q ds ≡ some d
    → p d ≡ false
    → any p ds ≡ true
    → any p (remove_first q ds) ≡ true
any_of_remove_first p q [] d found other h = cc
any_of_remove_first p q (x ∷ ds) d found other h = ground (arith, any_of_remove_first p q ds d)

is_role_of-sub :
    (p : Portal) (role : Role) → is_portal_role role ≡ false → is_role_of p role ≡ false
is_role_of-sub p role sub = ground arith

module _ (x : Platform) (state : AppState) (p : Portal) where
  catalogue-Write :
      (ambient : Ambient) (before after : List Role)
      → RolesWrite x state ambient before after
      → any (is_role_of p) before ≡ true
      → any (is_role_of p) after ≡ true
  catalogue-Write ambient before after (RolesWrite.keeps same) h =
      subst (λ ds. any (is_role_of p) ds ≡ true) (sym same) h
  catalogue-Write ambient before after (RolesWrite.creates now name q id right free wrote) h =
      subst (λ ds. any (is_role_of p) ds ≡ true) (sym wrote) (any_of_append _ before _ h)
  catalogue-Write ambient before after (RolesWrite.deletes id role right found sub wrote) h =
      subst (λ ds. any (is_role_of p) ds ≡ true) (sym wrote)
        (any_of_remove_first _ (Roles.has_id id) before role found (is_role_of-sub p role sub) h)

  catalogue-Step :
      (ambient : Ambient) (given : Given) (v w : World)
      → Step x state ambient given v w
      → HasPortalRole p v
      → HasPortalRole p w
  catalogue-Step ambient given v w (Step.roles u s write) h =
      catalogue-Write ambient u.roles.docs s.docs write h
  catalogue-Step ambient given v w (Step.accounts u s write) h = h
  catalogue-Step ambient given v w (Step.settings u s right) h = h
  catalogue-Step ambient given v w (Step.login_events u s) h = h
  catalogue-Step ambient given v w (Step.reset_tokens u s write) h = h
  catalogue-Step ambient given v w (Step.refresh_tokens u s write) h = h
  catalogue-Step ambient given v w (Step.limits u a b c) h = h
  catalogue-Step ambient given v w (Step.mails u email) h = h
  catalogue-Step ambient given v w (Step.publishes u event right) h = h

  -- Whatever is served, an administrator's requests included, the role of a portal that is in the
  -- catalogue stays in it.
  pub portal_roles_stay :
      (Allowed : Ambient → Type 0) (v w : World)
      → History x state Allowed v w
      → HasPortalRole p v
      → HasPortalRole p w
  portal_roles_stay Allowed v w history h =
      History-keeps _
        (record {
          by_step = λ ambient given v w a step held. catalogue-Step ambient given v w step held;
          by_refresh = λ q seed w held. held;
          by_reset = λ q seed w held. held;
        })
        history h

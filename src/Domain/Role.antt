-- ===== src/Domain/Role.antt =====
-- domain/role.rs.
use ch_api_authenticator.Base.{
  String, ◌==◌, Bool, true, false, Option, none, some, List, [], ◌∷◌, if◌then◌else◌,
}
use ch_api_authenticator.Base.Text.{trim}
use ch_api_authenticator.Domain.User.{ObjectId, DateTime}

pub data Portal : Type 0 where
  admin drive home budgy : Portal

-- `Portal::ALL`
abbrev pub all_portals : List Portal
all_portals = admin ∷ drive ∷ home ∷ budgy ∷ []

abbrev pub role_name : Portal → String
role_name admin = "admin"
role_name drive = "drive"
role_name home = "home"
role_name budgy = "budgy"

unfoldable pub from_portal_header : String → Option Portal
from_portal_header value =
    if value == "portail_admin"
    then some admin
    else if value == "portail_drive"
    then some drive
    else if value == "portail_home"
    then some home
    else if value == "portail_budgy"
    then some budgy
    else none

pub data RoleKind : Type 0 where
  portal sub : RoleKind

pub record Role : Type 0 where
  pub id : Option ObjectId
  pub name : String
  pub portal : Portal
  pub kind : RoleKind
  pub created_at : DateTime

unfoldable pub portal_role : DateTime → Portal → Role
portal_role now p = record {
  id = none;
  name = role_name p;
  portal = p;
  kind = RoleKind.portal;
  created_at = now;
}

unfoldable pub sub_role : DateTime → String → Portal → Role
sub_role now name p = record {
  id = none;
  name = trim name;
  portal = p;
  kind = sub;
  created_at = now;
}

abbrev is_portal : RoleKind → Bool
is_portal RoleKind.portal = true
is_portal sub = false

unfoldable pub is_portal_role : Role → Bool
is_portal_role role = is_portal role.kind

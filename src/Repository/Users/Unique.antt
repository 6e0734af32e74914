-- ===== src/Repository/Users/Unique.antt =====
-- What two documents of repository/users.rs conflict by, and the addresses that an account keeps.
use ch_api_authenticator.Repository.Users.{same_id}
use ch_api_authenticator.Repository.Users.{add_to_set}
use ch_api_authenticator.Repository.Users.{same_account, with_allowed_ip}
use ch_api_authenticator.Base.Lists.{is_nil}
use ch_api_authenticator.Base.{
  List, Option, String, [], arith, eq_iff, false, none, refl, some, ◌∷◌, ◌≡◌,
}
use ch_api_authenticator.Domain.User.{DateTime, ObjectId, User}

same_id-sym : (a b : Option ObjectId) → same_id a b ≡ same_id b a
same_id-sym none none = refl
same_id-sym none (some b) = refl
same_id-sym (some a) none = refl
same_id-sym (some a) (some b) = ground arith

pub same_account-sym : (a b : User) → same_account a b ≡ same_account b a
same_account-sym a b =
    ground (arith, eq_iff a.email b.email, eq_iff b.email a.email, same_id-sym a.id b.id)

-- An address that was added leaves no empty list.
pub with_allowed_ip-is_nil :
    (now : DateTime) (ip : String) (user : User)
    → is_nil (with_allowed_ip now ip user).allowed_ips ≡ false
with_allowed_ip-is_nil now ip user = is_nil-add_to_set user.allowed_ips
  where
    is_nil-add_to_set : (ips : List String) → is_nil (add_to_set ip ips) ≡ false
    is_nil-add_to_set [] = refl
    is_nil-add_to_set (other ∷ ips) = ground arith

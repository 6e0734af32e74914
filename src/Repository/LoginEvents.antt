-- ===== src/Repository/LoginEvents.antt =====
-- repository/login_events.rs: who logged in when, and with which portal roles.
use ch_api_authenticator.Exec.{◌>>=◌}
use ch_api_authenticator.Base.Integers.{to_nat, ℤ}
use ch_api_authenticator.Base.{Option, map, none, some}
use ch_api_authenticator.Base.{ℕ, String, Bool, false, List}
use ch_api_authenticator.Exec.{Exec, pure, ◌>>◌}
use ch_api_authenticator.Domain.User.{ObjectId, DateTime}
use ch_api_authenticator.Mongo.{Driver, Store, MongoError}

pub record LoginEvent : Type 0 where
  pub user_id : ObjectId
  pub portals : List String
  pub created_at : DateTime

pub record PortalConnections : Type 0 where
  pub portal : String
  pub connected_users : ℕ

-- A document of the aggregation, by what its two readings give.
pub record Group : Type 0 where
  pub portal : Option String
  pub connected_i32 : Option ℤ
  pub connected_i64 : Option ℤ

-- The aggregation's pipeline runs in the server: the events since a date, one group for each portal,
-- the number of its distinct users.
abbrev pub Aggregate : Type 0
Aggregate = DateTime → Exec (Store LoginEvent) MongoError (List Group)

abbrev pub identify : ObjectId → LoginEvent → LoginEvent
identify id event = event

abbrev pub never_same : LoginEvent → LoginEvent → Bool
never_same a b = false

abbrev pub LoginEvents : Type 0
LoginEvents = Driver LoginEvent identify never_same

module _ (collection : LoginEvents) where
  open collection use {insert_one}

  unfoldable pub record_login :
      DateTime → ObjectId → List String → Exec (Store LoginEvent) MongoError (Unit {0})
  record_login now user_id portals = do
    insert_one (record { user_id = user_id; portals = portals; created_at = now })
    pure tt

abbrev text_or_empty : Option String → String
text_or_empty none = ""
text_or_empty (some text) = text

abbrev count_of : Option ℤ → Option ℤ → ℕ
count_of (some n) i64 = to_nat n
count_of none (some n) = to_nat n
count_of none none = 0

abbrev connection_of : Group → PortalConnections
connection_of group = record {
  portal = text_or_empty group.portal;
  connected_users = count_of group.connected_i32 group.connected_i64;
}

unfoldable pub connected_users_by_portal :
    Aggregate → DateTime → Exec (Store LoginEvent) MongoError (List PortalConnections)
connected_users_by_portal aggregate since = do
  groups ← aggregate since
  pure (map connection_of groups)

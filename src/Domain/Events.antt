-- ===== src/Domain/Events.antt =====
-- domain/events.rs.
use ch_api_authenticator.Base.{String}

abbrev pub user_deleted_topic : String
user_deleted_topic = "auth/user/deleted"

abbrev pub user_deleted_type : String
user_deleted_type = "auth.user.deleted"

pub record UserDeletedEvent : Type 0 where
  pub event_id : String
  pub event_type : String
  pub sub : String
  pub occurred_at : String

-- `UserDeletedEvent::new`
unfoldable pub new : String → String → String → UserDeletedEvent
new event_id sub occurred_at = record {
  event_id = event_id;
  event_type = user_deleted_type;
  sub = sub;
  occurred_at = occurred_at;
}

-- ===== src/Handlers/Analytics.antt =====
-- handlers/analytics.rs: registrations and connections over a period.
use ch_api_authenticator.Exec.{◌>>=◌, ◌>>◌}
use ch_api_authenticator.Exec.{pure}
use ch_api_authenticator.Base.Lists.{find}
use ch_api_authenticator.Repository.Users.{count_created_since}
use ch_api_authenticator.Handlers.Request.{administrator}
use ch_api_authenticator.Repository.LoginEvents.{PortalConnections, connected_users_by_portal}
use ch_api_authenticator.Domain.Role.{Portal, all_portals, role_name}
use ch_api_authenticator.Base.{
  List, Option, String, if◌then◌else◌, map, none, some, ℕ, ◌*◌, ◌-◌, ◌==◌,
}
use ch_api_authenticator.Domain.User.{DateTime}
use ch_api_authenticator.State.{
  Ambient, AppState, Handler, Platform, in_login_events, in_users, or_internal,
}

abbrev pub day_ms : ℕ
day_ms = 24 * 3600 * 1000

pub record PortalTraffic : Type 0 where
  pub portal : String
  pub connected_users : ℕ

pub record TrafficResponse : Type 0 where
  pub period : String
  pub registrations : ℕ
  pub portals : List PortalTraffic

-- The length of a period.
unfoldable pub period_delta : String → ℕ
period_delta period =
    if period == "day"
    then day_ms
    else if period == "month"
    then 30 * day_ms
    else if period == "year"
    then 365 * day_ms
    else 7 * day_ms

-- `period_start`. A start before 1970 is 1970 here: no document is older.
unfoldable pub period_start : DateTime → String → DateTime
period_start now period = now - period_delta period

unfoldable pub normalize_period : Option String → String
normalize_period none = "week"
normalize_period (some raw) =
    if raw == "day"
    then "day"
    else if raw == "month"
    then "month"
    else if raw == "year"
    then "year"
    else "week"

abbrev connected_of : Option PortalConnections → ℕ
connected_of none = 0
connected_of (some counted) = counted.connected_users

unfoldable pub traffic_of : List PortalConnections → Portal → PortalTraffic
traffic_of counts portal = record {
  portal = role_name portal;
  connected_users =
      connected_of (find (λ (c : PortalConnections). c.portal == role_name portal) counts);
}

unfoldable pub traffic : Platform → AppState → Ambient → Option String → Handler TrafficResponse
traffic x state ambient raw = do
  administrator x state ambient
  let period = normalize_period raw
  let since = period_start (ambient.clock 1) period
  registrations ← or_internal (in_users (count_created_since x.users since))
  counts ← or_internal (in_login_events (connected_users_by_portal x.aggregate since))
  pure (record {
    period = period;
    registrations = registrations;
    portals = map (traffic_of counts) all_portals;
  })

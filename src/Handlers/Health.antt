-- ===== src/Handlers/Health.antt =====
-- handlers/health.rs and handlers/ping.rs. The name and the version of the package come from Cargo.toml.
use ch_api_authenticator.Service.Requests.{done}
use ch_api_authenticator.Mongo.{MongoError}
use ch_api_authenticator.Base.{Bool, String, false, if◌then◌else◌, true}
use ch_api_authenticator.Exec.{Result, ok, err}

-- `env!("CARGO_PKG_NAME")` and `env!("CARGO_PKG_VERSION")`
pub record Package : Type 0 where
  pub name : String
  pub version : String

pub record HealthResponse : Type 0 where
  pub status : String
  pub version : String
  pub mongodb : String

pub record PingResponse : Type 0 where
  pub service : String
  pub version : String
  pub status : String

-- `.is_ok()` of the server's answer to a ping.
abbrev is_up : Result MongoError (Unit {0}) → Bool
is_up (ok done) = true
is_up (err e) = false

unfoldable pub health : Package → Result MongoError (Unit {0}) → HealthResponse
health cargo answer = record {
  status = if is_up answer then "ok" else "degraded";
  version = cargo.version;
  mongodb = if is_up answer then "ok" else "down";
}

unfoldable pub ping : Package → PingResponse
ping cargo = record { service = cargo.name; version = cargo.version; status = "pong" }

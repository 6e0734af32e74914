-- ===== src/Services.antt =====
-- services/: what the handlers call, and the interfaces of the crates behind it.
pub mod Net
pub mod ClientIp
pub mod Whitelist
pub mod RateLimit
pub mod Relay
pub mod Missive
pub mod Jwt
pub mod Crypto

-- ===== src/Handlers.antt =====
-- handlers/: one module for each file of handlers, and the helpers that they share.
pub mod Admin
pub mod Analytics
pub mod Cookies
pub mod Internal
pub mod Login
pub mod Me
pub mod Password
pub mod Register
pub mod Request
pub mod Roles
pub mod Session
pub mod Settings
pub mod Validate
pub mod Health

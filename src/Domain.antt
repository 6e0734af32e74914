-- ===== src/Domain.antt =====
-- domain/: the accounts, the roles and the events.
pub mod User
pub mod RolesFormat
pub mod Role
pub mod Events

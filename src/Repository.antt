-- ===== src/Repository.antt =====
-- repository/: one module for each collection of the database.
pub mod Dates
pub mod Users
pub mod Roles
pub mod RefreshTokens
pub mod ResetTokens
pub mod LoginEvents
pub mod Settings
pub mod OneUse
pub mod Indexes

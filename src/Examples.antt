-- ===== src/Examples.antt =====
-- Concrete instances of the code that the program calls, and runs of the program on them: each
-- theorem of the other modules with a hypothesis or an argument is applied once here.
pub mod Memory
pub mod Components
pub mod Instances
pub mod Scenario
pub mod Sessions
pub mod Accounts
pub mod Administration
pub mod Start
pub mod Service
pub mod Tokens
pub mod Launch
pub mod Pages

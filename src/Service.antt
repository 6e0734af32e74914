-- ===== src/Service.antt =====
-- The service as a whole: what any request may write, and what holds of every run of requests.
pub mod Policy
pub mod Runs
pub mod Calls
pub mod Requests
pub mod History
pub mod Routes

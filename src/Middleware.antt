-- ===== src/Middleware.antt =====
-- middleware/: who makes a request, and the correlation id that it carries.
pub mod Auth
pub mod Tracing

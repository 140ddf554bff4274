-- ===== src/Middleware.antt =====
-- middleware/: the limits on the public doors.
pub mod RateLimit

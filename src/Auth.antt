-- ===== src/Auth.antt =====
-- apps/server/auth: the login rate limiter and the capture tokens of a meeting.
pub mod RateLimit
pub mod CaptureTokens

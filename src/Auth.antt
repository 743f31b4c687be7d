-- ===== src/Auth.antt =====
-- internal/auth: the in-memory rate limiter.
pub mod Limiter

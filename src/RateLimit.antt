-- ===== src/RateLimit.antt =====
-- The rate limiter: backend/internal/security/ratelimiter.go and backend/internal/http/rate_limit.go.
pub mod Redis
pub mod Enforce
pub mod Window

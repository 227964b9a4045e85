-- ===== src/Toss.antt =====
-- src/tqt/toss: the error classes, the retrying request loop, the token cache and the rate limiter.
pub mod Errors
pub mod Client
pub mod Models
pub mod Orders
pub mod Queries
pub mod Auth
pub mod RateLimit

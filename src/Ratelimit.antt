-- ===== src/Ratelimit.antt =====
-- authkit/ratelimit/ratelimit.go: the limit on failed logins of one client address.
pub mod Limiter
pub mod Proxies
pub mod Traffic
pub mod Budget
pub mod Trust
mod Examples

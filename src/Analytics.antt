-- ===== src/Analytics.antt =====
-- pkg/domain/analytics: the counters and the dashboard.
pub mod Models
pub mod Memory
pub mod Postgres
pub mod Dashboard

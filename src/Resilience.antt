-- ===== src/Resilience.antt =====
-- pkg/resilience: the circuit breaker and the HTTP client that retries under it.
pub mod Breaker
pub mod Client
pub mod MockCrm

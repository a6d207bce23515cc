-- ===== src/Fraud.antt =====
-- pkg/domain/fraud: the rules, the service that applies them, and its repositories.
pub mod Rules
pub mod Service
pub mod Memory
pub mod Postgres

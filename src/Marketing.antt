-- ===== src/Marketing.antt =====
-- pkg/domain/marketing: campaigns, the synchronisation with the CRM, and the privacy endpoints.
pub mod Memory
pub mod Postgres
pub mod Service
pub mod HttpCrm
pub mod Handlers

-- ===== src/Ingest.antt =====
-- pkg/domain/ingest: the gateway that takes in tracking events.
pub mod Address
pub mod Consent
pub mod Handler

-- ===== src/Tests.antt =====
-- Runs of the theorems on concrete data.
mod Disk
mod Postgres
mod Counters
mod Contacts
mod Redis
mod Simulator
mod Monolith
mod Commands
mod Compliance
mod Routes
mod Resilience
mod Broker
mod Fraud
mod Ingest
mod Cluster
mod Marketing

-- ===== src/Analytics.antt =====
-- app/analytics: the domain of the service.
pub mod Types
pub mod Entity
pub mod Decode
pub mod Repository
pub mod Ledger
pub mod Service
pub mod Dto
pub mod Controller
pub mod Routes
pub mod EventHandlers
pub mod Ingest

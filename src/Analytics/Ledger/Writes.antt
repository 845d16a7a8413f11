-- ===== src/Analytics/Ledger/Writes.antt =====
-- The writes of the repositories against the ledger, repository by repository.
pub mod Days
pub mod Platform

-- ===== src/Tests.antt =====
-- The theorems at concrete inputs, over a small store in memory.
mod Store
mod Inputs
mod Service
mod Config
mod Routes
mod Server
mod HttpClient
mod Backfill
mod Command
mod Ingest
mod Workers
mod Reads
mod Reports
mod Reordering
mod Summary
mod Answers
mod Rbac
mod Indexes
mod Boot
mod Messaging
mod Interleaving
mod Failures
mod Retry

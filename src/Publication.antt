-- ===== src/Publication.antt =====
-- The publication of a proposal: the signed ledger, and the attempts that it records.
pub mod Records
pub mod Ledger
pub mod Authorization
pub mod Backend
pub mod Outbox
mod Tests

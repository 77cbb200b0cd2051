-- ===== src/Site.antt =====
-- The remote site of tools/ro_repo.py: its snapshots, its channels and their history.
mod Tests
pub mod Tree
pub mod Records
pub mod Verify
pub mod Stage
pub mod Immutable
pub mod Mirror
pub mod Published
pub mod RolledBack
pub mod Policies
pub mod Promotion
pub mod Snapshot
pub mod Rollback
pub mod Local

-- ===== src/Planner.antt =====
-- tools/v3_promotion_planner.py
pub mod Version
pub mod Nevra
pub mod Registry
pub mod Packages
pub mod Candidate
pub mod Plan
mod Tests

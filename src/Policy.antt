-- ===== src/Policy.antt =====
-- The policy of a promotion: tools/v3_promotion_policy.py, tools/v3_policy_profile.py and
-- tools/v3_group_validation.py.
mod Tests
pub mod Dwell
pub mod Profile
pub mod Validation

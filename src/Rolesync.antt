-- ===== src/Rolesync.antt =====
-- internal/rolesync: which attributes a role sync owns, what it grants, and when it is complete.
pub mod Ownership
pub mod Scope
pub mod Plan
pub mod Matching
pub mod Planner
pub mod Retirement

-- ===== src/Controller.antt =====
-- internal/controller: the reconcilers.
pub mod RoleSync
pub mod Helpers
pub mod AccessPolicy
pub mod Service
pub mod Identity

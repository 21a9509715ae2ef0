-- ===== src/Controller/RoleSync.antt =====
-- internal/controller/zitientrarolesync_*.go: the reconciler of role syncs.
pub mod Effects
pub mod Reads
pub mod Writes
pub mod Run
pub mod Retry
pub mod Status

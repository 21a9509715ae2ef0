-- ===== src/Controller/AccessPolicy.antt =====
-- internal/controller/zitiaccesspolicy_controller.go: the reconciler of access policies.
pub mod Selectors
pub mod Effects
pub mod Run

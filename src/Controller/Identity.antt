-- ===== src/Controller/Identity.antt =====
-- internal/controller/zitiidentity_controller.go, internal/openziti/identity and
-- internal/credentials/enrollment_secret.go.
pub mod Effects
pub mod Secrets
pub mod Run

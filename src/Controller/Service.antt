-- ===== src/Controller/Service.antt =====
-- internal/controller/zitiservice_controller.go and zitiservice_router_policies.go.
pub mod Effects
pub mod Routers
pub mod Backend
pub mod Run

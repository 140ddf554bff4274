-- ===== src/AccessControl.antt =====
-- access_control/: who may reach which route.
pub mod PathCanon
pub mod RoleGate
pub mod Policy
pub mod RoleGrants
pub mod Verifier
pub mod Backend
pub mod Guard
pub mod Validation
pub mod Startup
pub mod Isolation

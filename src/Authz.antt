-- ===== src/Authz.antt =====
-- authz/: the authorization of tool dispatches.
pub mod Path
pub mod Check
pub mod Resolver
pub mod Execution
pub mod TokenFree

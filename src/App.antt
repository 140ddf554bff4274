-- ===== src/App.antt =====
-- app/: the registry of HTTP routes.
pub mod RouteRegistry

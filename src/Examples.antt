-- ===== src/Examples.antt =====
-- Concrete runs: a small site with a documentation route and a fenced one, an admin, and a key that
-- the admin owns.
pub mod Data
pub mod Paths
mod Roles
pub mod Edges
mod Fires
mod Boot
mod Limits
mod Notices
pub mod Interpreter
mod Conditions
mod Documents
mod Conditioned

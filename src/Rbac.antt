-- ===== src/Rbac.antt =====
-- lib/rbac: the permission cache, its invalidation, and the middleware that guards the routes.
pub mod Cache
pub mod Interleaving
pub mod Middleware

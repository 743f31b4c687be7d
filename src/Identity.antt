-- ===== src/Identity.antt =====
-- internal/identity/principal.go: permission sets and the principal that carries them.
-- `ModelPermissions` and `ConfigNamespacePermissions` have one shape, a scope and its codes, and
-- `normalizeModels` and `normalizeConfigNamespaces` differ in the codes they allow: both are
-- `ScopedPermissions` and `normalize` here.
pub mod Normalize
pub mod Delegate
pub mod Types
pub mod Defs

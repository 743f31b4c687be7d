-- ===== src/Permission.antt =====
-- internal/permission/permission.go: what the roles of a user grant, and the tests of a permission
-- (`RequireSystemPermission`, and `requireModelPermission` of internal/content/service.go).
pub mod Defs
pub mod Grants
pub mod Access

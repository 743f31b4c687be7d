-- ===== src/Identity/Types.antt =====
-- The records of internal/identity/principal.go.
use golang_cms.Prelude.{String, Bool, List, [], ◌∷◌, Option}

pub data AuthMethod : Type 0 where
  local sms : AuthMethod

-- `ModelPermissions` and `ConfigNamespacePermissions`.
pub record ScopedPermissions : Type 0 where
  pub scope_id : String
  pub permissions : List String

pub record PermissionSet : Type 0 where
  pub system : List String
  pub models : List ScopedPermissions
  pub config_namespace_permissions : List ScopedPermissions
  pub emergency_admin : Bool
  pub high_risk_role : Bool

pub record Principal : Type 0 where
  pub user_id : String
  pub display_name : String
  pub email : Option String
  pub auth_method : AuthMethod
  pub emergency_admin : Bool
  pub high_risk_role : Bool
  pub system_permissions : List String
  pub model_permissions : List ScopedPermissions
  pub config_namespace_permissions : List ScopedPermissions

-- `systemPermissionCodes`
abbrev pub system_permission_codes : List String
system_permission_codes =
    "users.view" ∷ "users.manage" ∷ "roles.view" ∷ "roles.manage" ∷ "models.view" ∷ "models.create"
    ∷ "models.update" ∷ "models.archive" ∷ "configurations.view" ∷ "configurations.create"
    ∷ "configurations.update" ∷ "configurations.archive" ∷ "assets.view" ∷ "assets.upload"
    ∷ "assets.update" ∷ "assets.archive" ∷ "api_keys.view" ∷ "api_keys.create" ∷ "api_keys.revoke"
    ∷ "audit.view" ∷ []

-- `modelPermissionCodes`
abbrev pub model_permission_codes : List String
model_permission_codes =
    "content.view" ∷ "content.create" ∷ "content.update" ∷ "content.archive" ∷ "content.submit"
    ∷ "content.review" ∷ "content.publish" ∷ "content.unpublish" ∷ []

-- `configNamespacePermissionCodes`
abbrev pub config_namespace_permission_codes : List String
config_namespace_permission_codes =
    "config.view" ∷ "config.create" ∷ "config.update" ∷ "config.archive" ∷ "config.submit"
    ∷ "config.review" ∷ "config.publish" ∷ "config.unpublish" ∷ []

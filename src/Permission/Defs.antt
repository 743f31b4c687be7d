-- ===== src/Permission/Defs.antt =====
-- The permission provider over the tables that its queries read, and the authorizers.
-- A row lock (`FOR UPDATE`, `FOR SHARE`) changes no result of one transaction and is not modelled;
-- so `Permissions` and `PermissionsWith` are one function, given the lists of its two providers.
use golang_cms.Prelude.{
  lookup, Assoc, ℕ, String, Bool, true, false, not, ◌&&◌, ◌||◌, List, [], ◌∷◌, ◌++◌, Option, none,
  some, ◌=s=◌, if◌then◌else◌, contains, any, keep, sort_strings, Table,
}
use golang_cms.AppError.{Error, app, permission_denied, internal, Result, ok, err, ◌>>=◌}
use golang_cms.Identity.Types.{
  ScopedPermissions, PermissionSet, Principal, system_permission_codes, model_permission_codes,
  config_namespace_permission_codes,
}
use golang_cms.Identity.Defs.{new_principal}
use golang_cms.Identity.Normalize.{holds}

pub data RoleKind : Type 0 where
  custom high_risk : RoleKind

-- A row of `roles`, without its key.
pub record RoleRow : Type 0 where
  pub key : String
  pub kind : RoleKind
  pub display_name : String
  pub description : String
  pub created_at : ℕ
  pub updated_at : ℕ

-- A row of `users`, without its key.
pub record UserRow : Type 0 where
  pub display_name : String
  pub email : Option String
  pub enabled : Bool
  pub created_at : ℕ
  pub updated_at : ℕ

-- A row of `sms_credentials`, whose key is the user.
pub record SmsCredential : Type 0 where
  pub phone_e164 : String
  pub phone_masked : String

-- A row of `sessions`.
pub record SessionRow : Type 0 where
  pub user_id : String
  pub revoked_at : Option ℕ

-- A row of `role_model_permissions` or of `role_config_namespace_permissions`.
pub record ScopeRow : Type 0 where
  pub role_id : String
  pub scope : String
  pub permission : String

-- The tables. `local_credentials` keeps the column `emergency_admin`, `user_roles` pairs of a user and
-- a role, `role_system_permissions` pairs of a role and a code. `phones` and `role_keys` are the unique
-- indices of `sms_credentials` and of `roles`, from a telephone number and a key to the row.
pub record Tables : Type 0 where
  pub users : Table UserRow
  pub local_credentials : Assoc Bool
  pub sms_credentials : Table SmsCredential
  pub phones : Table String
  pub user_roles : List (String × String)
  pub roles : Table RoleRow
  pub role_keys : Table String
  pub role_system_permissions : List (String × String)
  pub role_model_permissions : List ScopeRow
  pub role_config_namespace_permissions : List ScopeRow

-- `SQLProvider.Models` and `.ConfigNamespaces`: `none` where the field is nil.
pub record Providers : Type 0 where
  pub active_models : Option (Result (List String))
  pub active_config_namespaces : Option (Result (List String))

-- The second components of the pairs with the given first one.
unfoldable pub column : String → List (String × String) → List String
column k [] = []
column k ((a, b) ∷ rows) = let rest = column k rows in if a =s= k then b ∷ rest else rest

-- `== RoleKindHighRisk`
abbrev pub is_high : RoleKind → Bool
is_high high_risk = true
is_high custom = false

abbrev pub is_high_risk : Option RoleRow → Bool
is_high_risk (some r) = is_high r.kind
is_high_risk none = false

abbrev pub is_enabled : Option UserRow → Bool
is_enabled (some u) = u.enabled
is_enabled none = false

abbrev pub is_some {ℓ} : {A : Type ℓ} → Option A → Bool
is_some none = false
is_some (some a) = true

-- `user_roles ur JOIN roles r ON r.id=ur.role_id WHERE ur.user_id=? ORDER BY r.id`
unfoldable pub role_ids : Tables → String → List String
unfolding column
role_ids t user = sort_strings (keep (λ r. is_some (t.roles r)) (column user t.user_roles))

-- The rows of one role with a valid code, one grant for each.
unfoldable pub scope_rows : List String → String → List ScopeRow → List ScopedPermissions
scope_rows valid role [] = []
scope_rows valid role (r ∷ rows) =
    let rest = scope_rows valid role rows in
    if r.role_id =s= role && contains r.permission valid
    then record { scope_id = r.scope; permissions = r.permission ∷ [] } ∷ rest
    else rest

-- The loop over the roles. `ORDER BY` within a role decides only the order of the result, which
-- `NewPrincipal` sorts anew, and is left out.
unfoldable pub role_system : List String → List (String × String) → List String → List String
role_system valid rows [] = []
role_system valid rows (r ∷ rs) =
    keep (λ code. contains code valid) (column r rows) ++ role_system valid rows rs

unfoldable pub role_scopes : List String → List ScopeRow → List String → List ScopedPermissions
role_scopes valid rows [] = []
role_scopes valid rows (r ∷ rs) = scope_rows valid r rows ++ role_scopes valid rows rs

abbrev pub no_permissions : PermissionSet
no_permissions = record {
  system = [];
  models = [];
  config_namespace_permissions = [];
  emergency_admin = false;
  high_risk_role = false;
}

-- Every scope with all the codes.
unfoldable pub full_grants : List String → List String → List ScopedPermissions
full_grants codes [] = []
full_grants codes (id ∷ ids) = record { scope_id = id; permissions = codes } ∷ full_grants codes ids

-- `emergencyPermissions`, with the flags that `permissions` adds.
unfoldable pub emergency_permissions : List String → List String → Bool → Bool → PermissionSet
unfolding full_grants
emergency_permissions model_ids config_namespace_ids emergency high_risk_role = record {
  system = sort_strings system_permission_codes;
  models = full_grants (sort_strings model_permission_codes) (sort_strings model_ids);
  config_namespace_permissions =
      full_grants (sort_strings config_namespace_permission_codes)
        (sort_strings config_namespace_ids);
  emergency_admin = emergency;
  high_risk_role = high_risk_role;
}

-- `local_credentials` has no row for a user without a local password.
abbrev pub is_true : Option Bool → Bool
is_true (some true) = true
is_true _ = false

-- Without a provider there are no namespaces.
unfoldable pub namespaces_of : Providers → Result (List String)
namespaces_of p = elim p.active_config_namespaces [ none ↦ ok [] | some found ↦ found ]

-- The branch for an emergency administrator or a high-risk role.
unfoldable pub tier_permissions : Providers → Bool → Bool → Result PermissionSet
unfolding emergency_permissions namespaces_of
tier_permissions p emergency high = elim p.active_models [
  | none ↦ err (app internal "internal_error")
  | some models ↦ do
    model_ids ← models
    namespace_ids ← namespaces_of p
    ok (emergency_permissions model_ids namespace_ids emergency high)
]

unfoldable pub has_high_risk : Tables → List String → Bool
has_high_risk t roles = any (λ r. is_high_risk (t.roles r)) roles

-- The union of what the roles of an ordinary user grant.
unfoldable pub ordinary_permissions : Tables → List String → PermissionSet
unfolding role_system role_scopes
ordinary_permissions t roles = record {
  system = role_system system_permission_codes t.role_system_permissions roles;
  models = role_scopes model_permission_codes t.role_model_permissions roles;
  config_namespace_permissions =
      role_scopes config_namespace_permission_codes t.role_config_namespace_permissions roles;
  emergency_admin = false;
  high_risk_role = false;
}

-- `SQLProvider.permissions`
unfoldable pub permissions : Tables → Providers → String → Result PermissionSet
unfolding role_ids tier_permissions has_high_risk ordinary_permissions
permissions t p user =
    let emergency = is_true (lookup user t.local_credentials) in
    let roles = role_ids t user in
    let high = has_high_risk t roles in
    if not (is_enabled (t.users user))
    then ok no_permissions
    else if emergency || high
    then tier_permissions p emergency high
    else ok (ordinary_permissions t roles)

-- `PrincipalAuthorizer.CurrentPrincipal`, with a provider.
unfoldable pub current_principal : Tables → Providers → Principal → Result Principal
unfolding permissions
current_principal t p who = do
  granted ← permissions t p who.user_id
  ok (new_principal who.user_id who.display_name who.email who.auth_method granted)

abbrev pub denied : Error
denied = app permission_denied "permission_denied"

-- `PrincipalAuthorizer.RequireSystemPermission`
unfoldable pub require_system_permission : Principal → String → Result (Unit {0})
require_system_permission p required =
    if contains required p.system_permissions then ok tt else err denied

-- `requireModelPermission` of the content service: its two loops are `holds`.
unfoldable pub require_model_permission : Principal → String → String → Result (Unit {0})
require_model_permission p model_id required =
    if holds p.model_permissions model_id required then ok tt else err denied

-- ===== src/Accounts/Roles.antt =====
-- internal/permission/service.go: the operations of the role service. Each runs its checks of the
-- request, then a transaction.
use golang_cms.Prelude.{
  String, Bool, true, false, not, ◌||◌, List, [], Option, none, some, ◌==◌, length, sort_strings,
}
use golang_cms.AppError.{Result, ok, err, ◌>>=◌, guard}
use golang_cms.Database.{before, Tx, within_tx}
use golang_cms.Identity.Types.{
  Principal, ScopedPermissions, PermissionSet, system_permission_codes, model_permission_codes,
}
use golang_cms.Identity.Defs.{can_delegate, can_manage_security_tier, is_empty}
use golang_cms.Permission.Defs.{Tables, RoleRow, custom, is_high, is_some, denied, no_permissions}
use golang_cms.Accounts.Store.{AccountEnv, AccessDb, validation, unassembled, manager, write_audit}
use golang_cms.Accounts.Users.{User, visible, get_user}
use golang_cms.Accounts.Grants.{
  Role, get_role, create_role, update_row, touch_role, delete_role, replace_user_roles,
  replace_system_permissions, replace_model_permissions, replace_config_permissions, is_assigned,
  lock_role_transition,
}
use golang_cms.Accounts.Checks.{
  builtin_role_immutable, is_name, is_description, validate_role, invalid_codes, duplicates,
  scope_ids, sort_scopes, check_scopes, validate_config_grants, validate_active,
  can_replace_role_grants, authorize_role_grants, authorize_role_replacement,
}

-- `CreateRoleRequest`
pub record CreateRoleRequest : Type 0 where
  pub key : String
  pub display_name : String
  pub description : String
  pub config_namespace_permissions : List ScopedPermissions

-- `UpdateRoleRequest`
pub record UpdateRoleRequest : Type 0 where
  pub display_name : Option String
  pub description : Option String
  pub config_namespace_permissions : Option (List ScopedPermissions)

abbrev pub only_configs : List ScopedPermissions → PermissionSet
only_configs configs = record no_permissions { config_namespace_permissions = configs }

-- The transaction of `CreateRole`.
unfoldable pub create_tx :
    AccountEnv → CreateRoleRequest → List ScopedPermissions → String → Tx AccessDb Role
unfolding manager can_delegate validate_active create_role replace_config_permissions write_audit
create_tx env request configs id db = do
  who ← manager env "roles.manage" db.tables
  _ ← guard (can_delegate who (only_configs configs)) denied
  _ ← validate_active env.config_namespaces (sort_strings (scope_ids configs))
  let row : RoleRow = record {
    key = request.key;
    kind = custom;
    display_name = request.display_name;
    description = request.description;
    created_at = env.now;
    updated_at = env.now;
  }
  t1 ← create_role id row db.tables
  t2 ← replace_config_permissions id configs t1
  db2 ← write_audit env who "role_created" "role" id (record db { tables = t2 })
  ok (record { id = id; row = row; permissions = only_configs configs }, db2)

-- `CreateRole`
unfoldable pub create_role_call : AccountEnv → CreateRoleRequest → AccessDb → Result Role × AccessDb
unfolding validate_role validate_config_grants create_tx within_tx
create_role_call env request =
    before
      (guard (is_empty (validate_role request.key request.display_name request.description))
        validation)
      (λ _. before (validate_config_grants request.config_namespace_permissions) (λ configs.
        before (env.new_id "rol_") (λ id. within_tx env.commit (create_tx env request configs id))))

-- A role of the call, which is not the built-in one.
unfoldable pub custom_role : String → Tables → Result Role
unfolding get_role
custom_role id t = do
  role ← get_role t id
  _ ← guard (not (is_high role.row.kind)) builtin_role_immutable
  ok role

abbrev pub or_else {ℓ} : {A : Type ℓ} → Option A → A → A
or_else none a = a
or_else (some b) a = b

-- A member of the request that is given passes its test.
abbrev pub passes : (String → Bool) → Option String → Bool
passes test none = true
passes test (some v) = test v

-- The branch of `UpdateRole` for new namespace permissions.
unfoldable pub update_configs :
    AccountEnv → Principal → Role → Option (List ScopedPermissions) → Tables → Result Tables
unfolding authorize_role_grants validate_active replace_config_permissions
update_configs env who role none t = ok t
update_configs env who role (some configs) t = do
  _ ←
      authorize_role_grants who role
        (record role.permissions { config_namespace_permissions = configs }) t
  _ ← validate_active env.config_namespaces (sort_strings (scope_ids configs))
  replace_config_permissions role.id configs t

-- The transaction of `UpdateRole`.
unfoldable pub update_role_tx :
    AccountEnv → String → UpdateRoleRequest → Option (List ScopedPermissions) → Tx AccessDb Role
unfolding manager custom_role update_configs update_row write_audit get_role
update_role_tx env id request configs db = do
  who ← manager env "roles.manage" db.tables
  role ← custom_role id db.tables
  _ ← guard (passes is_name request.display_name) validation
  _ ← guard (passes is_description request.description) validation
  t1 ← update_configs env who role configs db.tables
  let t2 =
      update_row id
        (λ row. record row {
          display_name = or_else request.display_name role.row.display_name;
          description = or_else request.description role.row.description;
          updated_at = env.now;
        })
        t1
  db2 ← write_audit env who "role_updated" "role" id (record db { tables = t2 })
  result ← get_role db2.tables id
  ok (result, db2)

-- The check of the namespace permissions of `UpdateRole`.
unfoldable pub check_configs :
    Option (List ScopedPermissions) → Result (Option (List ScopedPermissions))
unfolding validate_config_grants
check_configs none = ok none
check_configs (some grants) = do configs ← validate_config_grants grants; ok (some configs)

-- `UpdateRole`
unfoldable pub update_role_call :
    AccountEnv → String → UpdateRoleRequest → AccessDb → Result Role × AccessDb
unfolding check_configs update_role_tx within_tx
update_role_call env id request =
    before
      (guard
        (is_some request.display_name
          || (is_some request.description || is_some request.config_namespace_permissions))
        validation)
      (λ _.
        before (check_configs request.config_namespace_permissions)
          (λ configs. within_tx env.commit (update_role_tx env id request configs)))

-- The transaction of `DeleteRole`.
unfoldable pub delete_tx : AccountEnv → String → Tx AccessDb (Unit {0})
unfolding manager custom_role can_manage_security_tier is_assigned can_replace_role_grants
    delete_role write_audit
delete_tx env id db = do
  who ← manager env "roles.manage" db.tables
  role ← custom_role id db.tables
  _ ←
      guard
        (can_manage_security_tier who
          || can_replace_role_grants who (is_assigned role.id who.user_id db.tables)
              role.permissions role.permissions)
        denied
  db2 ←
      write_audit env who "role_deleted" "role" id (record db { tables = delete_role id db.tables })
  ok (tt, db2)

-- `DeleteRole`
unfoldable pub delete_role_call : AccountEnv → String → AccessDb → Result (Unit {0}) × AccessDb
unfolding delete_tx within_tx
delete_role_call env id = within_tx env.commit (delete_tx env id)

-- The transaction of `ReplaceUserRoles`.
unfoldable pub user_roles_tx : AccountEnv → String → List String → Tx AccessDb User
unfolding manager get_user lock_role_transition authorize_role_replacement replace_user_roles
    write_audit
user_roles_tx env user_id role_ids db = do
  who ← manager env "roles.manage" db.tables
  _ ← guard env.has_users unassembled
  user ← get_user db.tables user_id
  (current, requested) ← lock_role_transition db.tables user.role_ids role_ids
  _ ← guard (requested.count == length role_ids) validation
  _ ← authorize_role_replacement who user current requested
  t1 ← replace_user_roles user_id role_ids db.tables
  db2 ← write_audit env who "user_roles_replaced" "user" user_id (record db { tables = t1 })
  result ← get_user db2.tables user_id
  ok (visible result, db2)

-- `ReplaceUserRoles`
unfoldable pub replace_user_roles_call :
    AccountEnv → String → List String → AccessDb → Result User × AccessDb
unfolding duplicates user_roles_tx within_tx
replace_user_roles_call env user_id role_ids =
    before (guard (not (duplicates role_ids)) validation)
      (λ _. within_tx env.commit (user_roles_tx env user_id (sort_strings role_ids)))

-- The transaction of `ReplaceSystemPermissions`.
unfoldable pub system_tx : AccountEnv → String → List String → Tx AccessDb Role
unfolding manager custom_role authorize_role_grants replace_system_permissions touch_role
    write_audit get_role
system_tx env id values db = do
  who ← manager env "roles.manage" db.tables
  role ← custom_role id db.tables
  _ ← authorize_role_grants who role (record role.permissions { system = values }) db.tables
  t1 ← replace_system_permissions id values db.tables
  db2 ←
      write_audit env who "role_system_permissions_replaced" "role" id
        (record db { tables = touch_role id env.now t1 })
  result ← get_role db2.tables id
  ok (result, db2)

-- `ReplaceSystemPermissions`
unfoldable pub replace_system_call :
    AccountEnv → String → List String → AccessDb → Result Role × AccessDb
unfolding invalid_codes system_tx within_tx
replace_system_call env id values =
    before (guard (not (invalid_codes values system_permission_codes)) validation)
      (λ _. within_tx env.commit (system_tx env id (sort_strings values)))

-- The transaction of `ReplaceModelPermissions`.
unfoldable pub model_tx : AccountEnv → String → List ScopedPermissions → Tx AccessDb Role
unfolding manager custom_role authorize_role_grants validate_active replace_model_permissions
    touch_role write_audit get_role
model_tx env id grants db = do
  who ← manager env "roles.manage" db.tables
  role ← custom_role id db.tables
  _ ← authorize_role_grants who role (record role.permissions { models = grants }) db.tables
  _ ← validate_active env.models (sort_strings (scope_ids grants))
  t1 ← replace_model_permissions id grants db.tables
  db2 ←
      write_audit env who "role_model_permissions_replaced" "role" id
        (record db { tables = touch_role id env.now t1 })
  result ← get_role db2.tables id
  ok (result, db2)

-- `ReplaceModelPermissions`
unfoldable pub replace_model_call :
    AccountEnv → String → List ScopedPermissions → AccessDb → Result Role × AccessDb
unfolding check_scopes sort_scopes model_tx within_tx
replace_model_call env id grants =
    before (check_scopes false model_permission_codes [] grants)
      (λ checked. within_tx env.commit (model_tx env id (sort_scopes checked)))

-- A call of the service.
pub data RoleCall : Type 0 where
  creates : CreateRoleRequest → RoleCall
  updates : String → UpdateRoleRequest → RoleCall
  deletes : String → RoleCall
  assigns : String → List String → RoleCall
  grants_system : String → List String → RoleCall
  grants_model : String → List ScopedPermissions → RoleCall

unfoldable pub without_value : {A : Type 0} → Result A × AccessDb → Result (Unit {0}) × AccessDb
without_value (ok a, db) = (ok tt, db)
without_value (err e, db) = (err e, db)

unfoldable pub role_call : AccountEnv → RoleCall → AccessDb → Result (Unit {0}) × AccessDb
unfolding create_role_call update_role_call delete_role_call replace_user_roles_call
    replace_system_call replace_model_call
role_call env (creates request) db = without_value (create_role_call env request db)
role_call env (updates id request) db = without_value (update_role_call env id request db)
role_call env (deletes id) db = delete_role_call env id db
role_call env (assigns user ids) db = without_value (replace_user_roles_call env user ids db)
role_call env (grants_system id values) db = without_value (replace_system_call env id values db)
role_call env (grants_model id grants) db = without_value (replace_model_call env id grants db)

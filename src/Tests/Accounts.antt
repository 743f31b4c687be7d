-- ===== src/Tests/Accounts.antt =====
-- The services of roles and users: runs, and the properties at them.
use golang_cms.Prelude.{
  any, keep, all, String, true, false, none, some, List, [], ◌∷◌, ◌=s=◌, if◌then◌else◌, ◌≡◌, refl,
  arith, eq_iff, contains, lookup, sort_strings,
}
use golang_cms.Database.{before}
use golang_cms.AppError.{Result, ok, err}
use golang_cms.Identity.Types.{Principal, ScopedPermissions, local}
use golang_cms.Identity.Defs.{
  valid_unique_sorted, merged_at, new_principal, can_manage_security_tier,
}
use golang_cms.Permission.Defs.{
  current_principal, require_system_permission, scope_rows, Tables, UserRow, RoleRow, custom,
  column, denied,
}
use golang_cms.Permission.Grants.{grants_scope}
use golang_cms.Accounts.Store.{AccountEnv, AccessDb, Validation, refreshed}
use golang_cms.Accounts.Users.{User, UserStatus}
use golang_cms.Accounts.Roles.{RoleCall, grants_model, role_call, without_value}
use golang_cms.Accounts.UserCalls.{
  CreateUserRequest, create_user, set_status, last_admin, enabled_admins,
}
use golang_cms.Accounts.Escalation.{IsBounded, config_grants}
use golang_cms.Accounts.Escalation.Linked.{Linked}
use golang_cms.Accounts.Escalation.Calls.{role_call-IsBounded}
use golang_cms.Accounts.Escalation.Runs.{
  is_ordinary, IsOld, run_calls, all_ordinary, run_calls-IsOld,
}
use golang_cms.Accounts.Calls.{AccountCall, sets_status, creates_user, changes_roles}
use golang_cms.Accounts.Status.{StatusResult, set_status-StatusResult}
use golang_cms.Accounts.Created.{CreatedWithin}
use golang_cms.Accounts.Delegated.{create_user-CreatedWithin}

abbrev user_row : UserRow
user_row = record {
  display_name = "User";
  email = none;
  enabled = true;
  created_at = 0;
  updated_at = 0;
}

abbrev role_row : RoleRow
role_row = record {
  key = "role";
  kind = custom;
  display_name = "Role";
  description = "";
  created_at = 0;
  updated_at = 0;
}

-- An emergency administrator and a manager, with the manager's role "a", "b" with a namespace code and
-- "c" without any.
abbrev tables : Tables
tables = record {
  users =
      λ u. if u =s= "admin" then some user_row else if u =s= "manager" then some user_row else none;
  local_credentials = ("admin", true) ∷ ("manager", false) ∷ [];
  sms_credentials = λ u. none;
  phones = λ p. none;
  user_roles = ("manager", "a") ∷ [];
  roles = λ r.
      if r =s= "a"
      then some role_row
      else if r =s= "b"
      then some role_row
      else if r =s= "c"
      then some role_row
      else none;
  role_keys = λ k. none;
  role_system_permissions =
      ("a", "users.manage") ∷ ("a", "roles.manage") ∷ ("a", "roles.view") ∷ [];
  role_model_permissions = record { role_id = "a"; scope = "m"; permission = "content.view" } ∷ [];
  role_config_namespace_permissions =
      record { role_id = "b"; scope = "n"; permission = "config.publish" } ∷ [];
}

tables-Linked : Linked tables
unfolding column contains
tables-Linked u r h = ground (arith, eq_iff "manager" u, eq_iff "a" r)

abbrev db : AccessDb
db = record {
  tables = tables;
  sessions = record { user_id = "manager"; revoked_at = none } ∷ [];
  audit_events = [];
}

abbrev caller : String → Principal
caller id = record {
  user_id = id;
  display_name = "User";
  email = none;
  auth_method = local;
  emergency_admin = false;
  high_risk_role = false;
  system_permissions = [];
  model_permissions = [];
  config_namespace_permissions = [];
}

abbrev env : String → AccountEnv
env id = record {
  principal = caller id;
  now = 5;
  new_id = λ prefix. ok (if prefix =s= "usr_" then "new" else "event");
  audit_check = λ event. none;
  commit = none;
  providers = record {
    active_models = some (ok ("m" ∷ []));
    active_config_namespaces = some (ok ("n" ∷ []));
  };
  has_users = true;
  models = some (λ ids. Validation.valid);
  config_namespaces = some (λ ids. Validation.valid);
}

abbrev own_code : List ScopedPermissions
own_code = record { scope_id = "m"; permissions = "content.view" ∷ [] } ∷ []

abbrev other_code : List ScopedPermissions
other_code = record { scope_id = "m"; permissions = "content.publish" ∷ [] } ∷ []

abbrev granted_db : AccessDb
granted_db = (role_call (env "manager") (grants_model "c" own_code) db).1

abbrev unknown : Principal
unknown = caller "manager"

abbrev principal_of : Result Principal → Principal
principal_of (ok who) = who
principal_of (err e) = unknown

abbrev chief : Principal
chief = principal_of (refreshed (env "manager") tables)

abbrev newcomer : CreateUserRequest
newcomer = record { display_name = "New"; phone = " 13800138000"; role_ids = some ("b" ∷ []) }

abbrev nobody : User
nobody = record {
  id = "";
  display_name = "";
  email = none;
  phone_masked = none;
  auth_methods = [];
  emergency_admin = false;
  high_risk_role = false;
  status = UserStatus.disabled;
  created_at = 0;
  updated_at = 0;
  phone = none;
  role_ids = [];
}

abbrev answered : {A : Type 0} → Result User × A → User
answered (ok user, _) = user
answered (err e, _) = nobody

abbrev created : Result User × AccessDb
created = create_user (env "manager") newcomer db

abbrev disabled : Result User × AccessDb
disabled = set_status (env "admin") "manager" (some UserStatus.disabled) db

abbrev role_calls : List (AccountEnv × RoleCall)
role_calls =
    (env "manager", grants_model "c" own_code) ∷ (env "manager", grants_model "c" other_code) ∷ []

abbrev account_calls : List (AccountEnv × AccountCall)
account_calls =
    (env "manager", creates_user newcomer)
    ∷ (env "admin", sets_status "admin" (some UserStatus.disabled))
    ∷ (env "manager", changes_roles (grants_model "c" own_code))
    ∷ []

record Runs : Type 0 where
  known : refreshed (env "manager") tables ≡ ok chief
  ordinary : can_manage_security_tier chief ≡ false
  granted : role_call (env "manager") (grants_model "c" own_code) db ≡ (ok tt, granted_db)
  refused : role_call (env "manager") (grants_model "c" other_code) db ≡ (err denied, db)
  each_ordinary : all_ordinary role_calls db ≡ true
  created_user : created ≡ (ok (answered created), created.1)
  disabled_user : disabled ≡ (ok (answered disabled), disabled.1)
  -- The last administrator stays enabled.
  kept : (set_status (env "admin") "admin" (some UserStatus.disabled) db).0 ≡ err last_admin
  -- The manager has no namespace code, and the user whom he creates has one.
  without_code : chief.config_namespace_permissions ≡ []
  with_code : config_grants created.1.tables "new" "n" "config.publish" ≡ true
  least : enabled_admins tables.users tables.local_credentials ≡ 1

runs : Runs
unfolding refreshed current_principal lookup any sort_strings keep can_manage_security_tier
    new_principal role_call without_value before require_system_permission valid_unique_sorted all
    scope_rows merged_at all_ordinary is_ordinary create_user set_status enabled_admins
    config_grants grants_scope contains column
runs = record {
  known = refl;
  ordinary = refl;
  granted = refl;
  refused = refl;
  each_ordinary = refl;
  created_user = refl;
  disabled_user = refl;
  kept = refl;
  without_code = refl;
  with_code = refl;
  least = refl;
}

role_call-IsBounded_example : IsBounded chief tables granted_db.tables × Linked granted_db.tables
role_call-IsBounded_example =
    role_call-IsBounded (env "manager") (grants_model "c" own_code) db granted_db chief
      tables-Linked runs.granted runs.known runs.ordinary

run_calls-IsOld_example : IsOld tables (run_calls role_calls db).tables
run_calls-IsOld_example = run_calls-IsOld role_calls db tables-Linked runs.each_ordinary

set_status-StatusResult_example :
    StatusResult (env "admin") "manager" UserStatus.disabled db disabled.1
set_status-StatusResult_example =
    set_status-StatusResult (env "admin") "manager" UserStatus.disabled db disabled.1
      (answered disabled) runs.disabled_user

create_user-CreatedWithin_example : CreatedWithin chief tables created.1.tables
create_user-CreatedWithin_example =
    create_user-CreatedWithin (env "manager") newcomer db created.1 (answered created) chief
      runs.created_user runs.known runs.ordinary

-- ===== src/Accounts/UserCalls.antt =====
-- internal/identity/service.go: the operations of the user service.
use golang_cms.Prelude.{
  String, ℕ, Bool, true, false, not, ◌&&◌, ◌||◌, List, [], ◌∷◌, ◌++◌, Option, none, some,
  if◌then◌else◌, ◌=s=◌, ◌==◌, ◌+◌, ltb, leb, keep, length, sort_strings, put, remove, Table, Assoc,
  trim_space, rune_count,
}
use golang_cms.AppError.{Error, app, conflict, failure, Result, ok, err, ◌>>=◌, guard}
use golang_cms.Database.{before, Tx, within_tx}
use golang_cms.Identity.Types.{Principal, ScopedPermissions}
use golang_cms.Identity.Defs.{can_delegate, can_manage_security_tier, is_empty}
use golang_cms.Permission.Defs.{
  Tables, RoleRow, UserRow, ScopeRow, SmsCredential, SessionRow, column, is_high, is_some,
  is_enabled, denied, require_system_permission,
}
use golang_cms.Accounts.Store.{AccountEnv, AccessDb, validation, manager, write_audit}
use golang_cms.Accounts.Users.{User, UserStatus, visible, get_user}
use golang_cms.Accounts.Grants.{LockedRoleSelection, no_roles, sort_rows, insert_pairs}
use golang_cms.Accounts.Checks.{has_duplicate}
use golang_cms.Accounts.Phone.{normalize_phone}

-- The caller has both permissions.
unfoldable pub manager_of_both : AccountEnv → String → Tables → Result Principal
unfolding manager
manager_of_both env second t = do
  who ← manager env "users.manage" t
  _ ← require_system_permission who second
  ok who

unfoldable pub rows_as_grants : List ScopeRow → List ScopedPermissions
rows_as_grants [] = []
rows_as_grants (r ∷ rows) =
    record { scope_id = r.scope; permissions = r.permission ∷ [] } ∷ rows_as_grants rows

-- One turn of the loop of `LockRoleIDs`. It reads no namespace permissions.
abbrev pub add_locked : Tables → String → Option RoleRow → LockedRoleSelection → LockedRoleSelection
add_locked t id none s = s
add_locked t id (some row) s = record s {
  count = s.count + 1;
  high_risk = s.high_risk || is_high row.kind;
  permissions = record s.permissions {
    system = s.permissions.system ++ sort_strings (column id t.role_system_permissions);
    models =
        s.permissions.models
        ++ rows_as_grants (sort_rows (keep (λ r. r.role_id =s= id) t.role_model_permissions));
  };
}

-- `LockRoleIDs`
unfoldable pub lock_role_ids : Tables → List String → LockedRoleSelection → LockedRoleSelection
unfolding column sort_strings rows_as_grants sort_rows keep
lock_role_ids t [] s = s
lock_role_ids t (id ∷ ids) s = lock_role_ids t ids (add_locked t id (t.roles id) s)

abbrev pub phone_conflict : Error
phone_conflict = app conflict "phone_conflict"

-- `CreateSMSUser`
unfoldable pub create_sms_user :
    String → String → String → String → List String → ℕ → Tables → Result Tables
unfolding put insert_pairs
create_sms_user id name phone masked role_ids now t = do
  _ ← guard (not (is_some (t.users id))) failure
  let user : UserRow = record {
    display_name = name;
    email = none;
    enabled = true;
    created_at = now;
    updated_at = now;
  }
  _ ← guard (not (is_some (t.sms_credentials id) || is_some (t.phones phone))) phone_conflict
  let credential : SmsCredential = record { phone_e164 = phone; phone_masked = masked }
  let users = put id user t.users
  rows ← insert_pairs (λ u r. is_some (users u) && is_some (t.roles r)) id role_ids t.user_roles
  ok (record t {
    users = users;
    sms_credentials = put id credential t.sms_credentials;
    phones = put phone id t.phones;
    user_roles = rows;
  })

abbrev pub set_row : Bool → ℕ → Option UserRow → Option UserRow
set_row enabled now none = none
set_row enabled now (some row) = some (record row { enabled = enabled; updated_at = now })

abbrev pub touch_row : ℕ → Option UserRow → Option UserRow
touch_row now none = none
touch_row now (some row) = some (record row { updated_at = now })

-- `SetStatus` of the repository.
unfoldable pub set_enabled : String → Bool → ℕ → Tables → Tables
set_enabled id enabled now t = record t {
  users = λ j. if id =s= j then set_row enabled now (t.users j) else t.users j;
}

-- `RevokeSessions`
unfoldable pub revoke_sessions : String → ℕ → List SessionRow → List SessionRow
revoke_sessions id now [] = []
revoke_sessions id now (s ∷ rows) =
    (if s.user_id =s= id && not (is_some s.revoked_at)
      then record s { revoked_at = some now }
      else s)
    ∷ revoke_sessions id now rows

abbrev pub enabled_admin : Table UserRow → String × Bool → Bool
enabled_admin users (u, emergency) = emergency && is_enabled (users u)

-- `LockEnabledEmergencyAdmins`
unfoldable pub enabled_admins : Table UserRow → Assoc Bool → ℕ
unfolding keep
enabled_admins users credentials = length (keep (enabled_admin users) credentials)

abbrev pub is_enabled_status : UserStatus → Bool
is_enabled_status UserStatus.enabled = true
is_enabled_status UserStatus.disabled = false

abbrev pub same_truth : Bool → Bool → Bool
same_truth true b = b
same_truth false b = not b

abbrev pub last_admin : Error
last_admin = app conflict "last_emergency_admin_required"

-- The user is read once more behind the lock of the administrators, which changes no result within
-- one transaction.
unfoldable pub set_status_tx : AccountEnv → String → UserStatus → Tx AccessDb User
unfolding manager_of_both get_user enabled_admins set_enabled revoke_sessions write_audit
set_status_tx env id status db = do
  let t = db.tables
  who ← manager_of_both env "roles.view" t
  user ← get_user t id
  _ ← guard (not (user.emergency_admin && not who.emergency_admin)) denied
  let enable = is_enabled_status status
  let was_enabled = is_enabled_status user.status
  let count = enabled_admins t.users t.local_credentials
  _ ← guard (not ((not enable && (was_enabled && user.emergency_admin)) && leb count 1)) last_admin
  let t1 = if same_truth enable was_enabled then t else set_enabled id enable env.now t
  let sessions = if enable then db.sessions else revoke_sessions id env.now db.sessions
  db2 ←
      write_audit env who "user_status_updated" "user" id
        (record db { tables = t1; sessions = sessions })
  result ← get_user db2.tables id
  ok (visible result, db2)

abbrev pub sms_credential_required : Error
sms_credential_required = app conflict "sms_credential_required"

abbrev pub required : Option String → Error → Result String
required none e = err e
required (some v) e = ok v

-- `SetStatus`; a status that is none of the two is refused at once.
unfoldable pub set_status :
    AccountEnv → String → Option UserStatus → AccessDb → Result User × AccessDb
unfolding set_status_tx within_tx before
set_status env id none db = (err validation, db)
set_status env id (some status) db = within_tx env.commit (set_status_tx env id status) db

-- `CreateUserRequest`; `role_ids` may be missing.
pub record CreateUserRequest : Type 0 where
  pub display_name : String
  pub phone : String
  pub role_ids : Option (List String)

abbrev pub listed : Option (List String) → List String
listed none = []
listed (some ids) = ids

-- `validateCreateUser`: the paths of the details, that of the telephone number of `Create` included.
unfoldable pub validate_create_user : CreateUserRequest → List String
unfolding has_duplicate trim_space normalize_phone
validate_create_user r =
    (if ltb (rune_count (trim_space r.display_name)) 1 || ltb 120 (rune_count r.display_name)
      then "/display_name" ∷ []
      else [])
    ++ (if has_duplicate [] (listed r.role_ids) then "/role_ids" ∷ [] else [])
    ++ (if is_some r.role_ids then [] else "/role_ids" ∷ [])
    ++ (if is_some (normalize_phone r.phone) then [] else "/phone" ∷ [])

-- The transaction of `Create`, for a normalized number.
unfoldable pub create_user_tx :
    AccountEnv → String → String × String → List String → Tx AccessDb User
unfolding manager_of_both lock_role_ids can_delegate can_manage_security_tier create_sms_user
    write_audit get_user
create_user_tx env name (phone, masked) role_ids db = do
  who ← manager_of_both env "roles.manage" db.tables
  let roles = lock_role_ids db.tables role_ids no_roles
  _ ← guard (roles.count == length role_ids) validation
  _ ← guard (not (roles.high_risk && not (can_manage_security_tier who))) denied
  _ ← guard (can_delegate who roles.permissions) denied
  id ← env.new_id "usr_"
  t1 ← create_sms_user id name phone masked role_ids env.now db.tables
  db2 ← write_audit env who "user_created" "user" id (record db { tables = t1 })
  result ← get_user db2.tables id
  ok (visible result, db2)

-- `Create`
unfoldable pub create_user : AccountEnv → CreateUserRequest → AccessDb → Result User × AccessDb
unfolding validate_create_user normalize_phone create_user_tx within_tx before sort_strings
create_user env r db = elim (normalize_phone r.phone) [
  | none ↦ (err validation, db)
  | some number ↦
      before (guard (is_empty (validate_create_user r)) validation)
        (λ _.
          within_tx env.commit
            (create_user_tx env r.display_name number (sort_strings (listed r.role_ids))))
        db
]

-- `UPDATE users SET updated_at=? WHERE id=?`
unfoldable pub touch_user : String → ℕ → Tables → Tables
touch_user id now t = record t {
  users = λ j. if id =s= j then touch_row now (t.users j) else t.users j;
}

-- `Repository.UpdatePhone`, under the unique index on the number.
unfoldable pub update_phone_row : String → String → String → ℕ → Tables → Result Tables
unfolding put remove touch_user
update_phone_row id phone masked now t = elim (t.sms_credentials id) [
  | none ↦ ok (touch_user id now t)
  | some old ↦ do
    _ ← guard (not (is_some (t.phones phone)) || old.phone_e164 =s= phone) phone_conflict
    ok (
        touch_user id now (record t {
          sms_credentials =
              put id (record { phone_e164 = phone; phone_masked = masked }) t.sms_credentials;
          phones = put phone id (remove old.phone_e164 t.phones);
        }))
]

-- The end of the transaction of `UpdatePhone`, for a number that differs.
unfoldable pub phone_changed : AccountEnv → Principal → String → String × String → Tx AccessDb User
unfolding update_phone_row revoke_sessions write_audit get_user
phone_changed env who id (phone, masked) db = do
  t1 ← update_phone_row id phone masked env.now db.tables
  db2 ←
      write_audit env who "user_phone_updated" "user" id
        (record db { tables = t1; sessions = revoke_sessions id env.now db.sessions })
  result ← get_user db2.tables id
  ok (visible result, db2)

-- The transaction of `UpdatePhone`, for a normalized number.
unfoldable pub update_phone_tx : AccountEnv → String → String × String → Tx AccessDb User
unfolding manager_of_both get_user can_manage_security_tier phone_changed
update_phone_tx env id number db = do
  who ← manager_of_both env "roles.view" db.tables
  user ← get_user db.tables id
  _ ← guard (not user.emergency_admin) denied
  old ← required user.phone sms_credential_required
  _ ← guard (can_manage_security_tier who) denied
  let changed = phone_changed env who id number db
  if old =s= number.0 then ok (visible user, db) else changed

-- `UpdatePhone`
unfoldable pub update_phone : AccountEnv → String → String → AccessDb → Result User × AccessDb
unfolding normalize_phone update_phone_tx within_tx
update_phone env id phone db = elim (normalize_phone phone) [
  | none ↦ (err validation, db)
  | some number ↦ within_tx env.commit (update_phone_tx env id number) db
]

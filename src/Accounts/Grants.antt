-- ===== src/Accounts/Grants.antt =====
-- internal/permission/repository.go: what a role grants, read and replaced.
use golang_cms.Prelude.{
  String, ℕ, Bool, true, false, not, ◌&&◌, ◌||◌, List, [], ◌∷◌, ◌++◌, Option, none, some,
  if◌then◌else◌, ◌=s=◌, ◌+◌, any, keep, contains, sort_strings, text_le, put, remove, Table,
}
use golang_cms.AppError.{Error, app, not_found, failure, conflict, Result, ok, err, ◌>>=◌, guard}
use golang_cms.Identity.Types.{ScopedPermissions, PermissionSet}
use golang_cms.Permission.Defs.{Tables, RoleRow, ScopeRow, column, is_some, is_high, no_permissions}

-- `Role`, whose columns are its row.
pub record Role : Type 0 where
  pub id : String
  pub row : RoleRow
  pub permissions : PermissionSet

-- `ORDER BY model_id, permission`
abbrev pub row_le : ScopeRow → ScopeRow → Bool
row_le a b =
    if a.scope =s= b.scope then text_le a.permission b.permission else text_le a.scope b.scope

unfoldable pub insert_row : ScopeRow → List ScopeRow → List ScopeRow
insert_row a [] = a ∷ []
insert_row a (x ∷ xs) = if row_le a x then a ∷ x ∷ xs else x ∷ insert_row a xs

unfoldable pub sort_rows : List ScopeRow → List ScopeRow
unfolding insert_row
sort_rows [] = []
sort_rows (x ∷ xs) = insert_row x (sort_rows xs)

-- One turn of the loops of `loadGrants`: a code goes to the last grant if that is of its scope, and to
-- a new one otherwise.
unfoldable pub add_code : String → String → List ScopedPermissions → List ScopedPermissions
add_code scope code [] = record { scope_id = scope; permissions = code ∷ [] } ∷ []
add_code scope code (g ∷ []) =
    if g.scope_id =s= scope
    then record g { permissions = g.permissions ++ code ∷ [] } ∷ []
    else g ∷ record { scope_id = scope; permissions = code ∷ [] } ∷ []
add_code scope code (g ∷ h ∷ gs) = g ∷ add_code scope code (h ∷ gs)

unfoldable pub group_rows : List ScopedPermissions → List ScopeRow → List ScopedPermissions
unfolding add_code
group_rows found [] = found
group_rows found (r ∷ rows) = group_rows (add_code r.scope r.permission found) rows

unfoldable pub load_scopes : String → List ScopeRow → List ScopedPermissions
unfolding keep sort_rows group_rows
load_scopes id rows = group_rows [] (sort_rows (keep (λ r. r.role_id =s= id) rows))

-- `loadGrants`
unfoldable pub load_grants : Tables → String → PermissionSet
unfolding column load_scopes
load_grants t id = record no_permissions {
  system = sort_strings (column id t.role_system_permissions);
  models = load_scopes id t.role_model_permissions;
  config_namespace_permissions = load_scopes id t.role_config_namespace_permissions;
}

abbrev pub role_not_found : Error
role_not_found = app not_found "not_found"

-- `GetRole`
unfoldable pub get_role : Tables → String → Result Role
unfolding load_grants
get_role t id = elim (t.roles id) [
  | none ↦ err role_not_found
  | some row ↦ ok (record { id = id; row = row; permissions = load_grants t id })
]

abbrev pub key_conflict : Error
key_conflict = app conflict "key_conflict"

-- `INSERT INTO roles` with its two unique keys, and the answer of the service to their violation.
unfoldable pub create_role : String → RoleRow → Tables → Result Tables
unfolding put
create_role id row t = do
  _ ← guard (not (is_some (t.roles id) || is_some (t.role_keys row.key))) key_conflict
  ok (record t { roles = put id row t.roles; role_keys = put row.key id t.role_keys })

abbrev pub map_row : (RoleRow → RoleRow) → Option RoleRow → Option RoleRow
map_row f none = none
map_row f (some row) = some (f row)

-- `UPDATE roles ... WHERE id=?`: it changes nothing where the row is missing.
unfoldable pub update_row : String → (RoleRow → RoleRow) → Tables → Tables
update_row id f t = record t { roles = λ j. if id =s= j then map_row f (t.roles j) else t.roles j }

-- `TouchRole`
unfoldable pub touch_role : String → ℕ → Tables → Tables
unfolding update_row
touch_role id now t = update_row id (λ row. record row { updated_at = now }) t

-- The pairs, and the rows of a role, that a deletion leaves.
unfoldable pub without_first : String → List (String × String) → List (String × String)
without_first k [] = []
without_first k ((a, b) ∷ rows) =
    let rest = without_first k rows in if a =s= k then rest else (a, b) ∷ rest

unfoldable pub without_second : String → List (String × String) → List (String × String)
without_second k [] = []
without_second k ((a, b) ∷ rows) =
    let rest = without_second k rows in if b =s= k then rest else (a, b) ∷ rest

unfoldable pub without_role : String → List ScopeRow → List ScopeRow
unfolding keep
without_role id rows = keep (λ r. not (r.role_id =s= id)) rows

unfoldable pub without_key : Option RoleRow → Table String → Table String
unfolding remove
without_key none keys = keys
without_key (some row) keys = remove row.key keys

-- `DELETE FROM roles`; the foreign keys of the tables of grants and of `user_roles` cascade.
unfoldable pub delete_role : String → Tables → Tables
unfolding remove without_first without_second without_role without_key
delete_role id t = record t {
  roles = remove id t.roles;
  role_keys = without_key (t.roles id) t.role_keys;
  user_roles = without_second id t.user_roles;
  role_system_permissions = without_first id t.role_system_permissions;
  role_model_permissions = without_role id t.role_model_permissions;
  role_config_namespace_permissions = without_role id t.role_config_namespace_permissions;
}

-- The insertions of pairs with one first component, under the primary key and the foreign keys.
unfoldable pub insert_pairs :
    (String → String → Bool)
    → String
    → List String
    → List (String × String)
    → Result (List (String × String))
unfolding contains column
insert_pairs allowed k [] rows = ok rows
insert_pairs allowed k (v ∷ vs) rows =
    let rest = insert_pairs allowed k vs (rows ++ (k, v) ∷ []) in
    if not (allowed k v) || contains v (column k rows) then err failure else rest

-- `ReplaceUserRoles`
unfoldable pub replace_user_roles : String → List String → Tables → Result Tables
unfolding without_first insert_pairs
replace_user_roles user ids t = do
  rows ←
      insert_pairs (λ u r. is_some (t.users u) && is_some (t.roles r)) user ids
        (without_first user t.user_roles)
  ok (record t { user_roles = rows })

-- `ReplaceSystemPermissions`
unfoldable pub replace_system_permissions : String → List String → Tables → Result Tables
unfolding without_first insert_pairs
replace_system_permissions id values t = do
  rows ←
      insert_pairs (λ r c. is_some (t.roles r)) id values
        (without_first id t.role_system_permissions)
  ok (record t { role_system_permissions = rows })

-- The two loops of insertions, under the primary key and the foreign key to the roles. The keys to
-- the models and the namespaces are what the validators look at before, and are not modelled.
unfoldable pub insert_codes :
    Bool → String → String → List String → List ScopeRow → Result (List ScopeRow)
unfolding any
insert_codes known id scope [] rows = ok rows
insert_codes known id scope (c ∷ cs) rows =
    let rest =
      insert_codes known id scope cs
        (rows ++ record { role_id = id; scope = scope; permission = c } ∷ []) in
    let taken = any (λ r. r.role_id =s= id && (r.scope =s= scope && r.permission =s= c)) rows in
    if not known || taken then err failure else rest

unfoldable pub insert_scopes :
    Bool → String → List ScopedPermissions → List ScopeRow → Result (List ScopeRow)
unfolding insert_codes
insert_scopes known id [] rows = ok rows
insert_scopes known id (g ∷ gs) rows = do
  rows2 ← insert_codes known id g.scope_id g.permissions rows
  insert_scopes known id gs rows2

-- `ReplaceModelPermissions`
unfoldable pub replace_model_permissions : String → List ScopedPermissions → Tables → Result Tables
unfolding without_role insert_scopes
replace_model_permissions id values t = do
  rows ← insert_scopes (is_some (t.roles id)) id values (without_role id t.role_model_permissions)
  ok (record t { role_model_permissions = rows })

-- `ReplaceConfigNamespacePermissions`
unfoldable pub replace_config_permissions : String → List ScopedPermissions → Tables → Result Tables
unfolding without_role insert_scopes
replace_config_permissions id values t = do
  rows ←
      insert_scopes (is_some (t.roles id)) id values
        (without_role id t.role_config_namespace_permissions)
  ok (record t { role_config_namespace_permissions = rows })

-- `IsRoleAssignedToUser`
unfoldable pub is_assigned : String → String → Tables → Bool
unfolding contains column
is_assigned role user t = contains role (column user t.user_roles)

-- `identity.LockedRoleSelection`
pub record LockedRoleSelection : Type 0 where
  pub count : ℕ
  pub high_risk : Bool
  pub permissions : PermissionSet

abbrev pub no_roles : LockedRoleSelection
no_roles = record { count = 0; high_risk = false; permissions = no_permissions }

-- `appendRoleSelection`
abbrev pub append_role : LockedRoleSelection → Role → LockedRoleSelection
append_role s role = record s {
  count = s.count + 1;
  high_risk = s.high_risk || is_high role.row.kind;
  permissions = record s.permissions {
    system = s.permissions.system ++ role.permissions.system;
    models = s.permissions.models ++ role.permissions.models;
    config_namespace_permissions =
        s.permissions.config_namespace_permissions ++ role.permissions.config_namespace_permissions;
  };
}

abbrev pub is_not_found : Error → Bool
is_not_found (app not_found code) = true
is_not_found _ = false

-- The elements, each once, as the keys of a map.
unfoldable pub keys_of : List String → List String
unfolding contains
keys_of [] = []
keys_of (x ∷ xs) = let rest = keys_of xs in if contains x rest then rest else x ∷ rest

-- The loop over the roles of both selections; an unknown role is passed over.
unfoldable pub select_roles :
    Tables
    → List String
    → List String
    → List String
    → LockedRoleSelection
    → LockedRoleSelection
    → Result (LockedRoleSelection × LockedRoleSelection)
unfolding contains
select_roles t current requested [] c r = ok (c, r)
select_roles t current requested (id ∷ ids) c r = elim (get_role t id) [
  | err e ↦
      let rest = select_roles t current requested ids c r in if is_not_found e then rest else err e
  | ok role ↦
      select_roles t current requested ids (if contains id current then append_role c role else c)
        (if contains id requested then append_role r role else r)
]

-- `LockRoleTransition`
unfoldable pub lock_role_transition :
    Tables → List String → List String → Result (LockedRoleSelection × LockedRoleSelection)
unfolding select_roles keys_of
lock_role_transition t current requested =
    select_roles t current requested (sort_strings (keys_of (current ++ requested))) no_roles
      no_roles

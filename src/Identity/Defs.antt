-- ===== src/Identity/Defs.antt =====
-- The functions of internal/identity/principal.go.
use golang_cms.Prelude.{
  String, Bool, true, false, not, ◌&&◌, ◌||◌, List, [], ◌∷◌, ◌++◌, Option, ◌=s=◌, if◌then◌else◌,
  contains, all, sort_strings,
}
use golang_cms.Identity.Types.{
  AuthMethod, ScopedPermissions, PermissionSet, Principal, system_permission_codes,
  model_permission_codes, config_namespace_permission_codes,
}

-- The loop of `validUniqueSorted`: `seen` holds the codes taken so far.
unfoldable pub valid_unique : List String → List String → List String → List String
valid_unique allowed seen [] = []
valid_unique allowed seen (v ∷ vs) =
    let skip = valid_unique allowed seen vs in
    let taken = v ∷ valid_unique allowed (v ∷ seen) vs in
    if not (contains v allowed) then skip else if contains v seen then skip else taken

unfoldable pub valid_unique_sorted : List String → List String → List String
unfolding valid_unique
valid_unique_sorted values allowed = sort_strings (valid_unique allowed [] values)

-- `merged[value.ModelID]`, empty where the key is missing.
unfoldable pub merged_at : String → List ScopedPermissions → List String
merged_at id [] = []
merged_at id (g ∷ m) = if g.scope_id =s= id then g.permissions else merged_at id m

-- `merged[id] = append(merged[id], codes...)`
unfoldable pub merge_one : String → List String → List ScopedPermissions → List ScopedPermissions
merge_one id codes [] = record { scope_id = id; permissions = codes } ∷ []
merge_one id codes (g ∷ m) =
    if g.scope_id =s= id
    then record g { permissions = g.permissions ++ codes } ∷ m
    else g ∷ merge_one id codes m

unfoldable pub merge : List ScopedPermissions → List ScopedPermissions → List ScopedPermissions
unfolding merge_one
merge m [] = m
merge m (v ∷ vs) = merge (if v.scope_id =s= "" then m else merge_one v.scope_id v.permissions m) vs

abbrev pub scopes : List ScopedPermissions → List String
scopes [] = []
scopes (g ∷ m) = g.scope_id ∷ scopes m

abbrev pub is_empty : List String → Bool
is_empty [] = true
is_empty (x ∷ xs) = false

-- The last loop: one result for each scope that has a valid code.
unfoldable pub collect : List String → List ScopedPermissions → List String → List ScopedPermissions
collect allowed m [] = []
collect allowed m (id ∷ ids) =
    let rest = collect allowed m ids in
    let permissions = valid_unique_sorted (merged_at id m) allowed in
    if is_empty permissions
    then rest
    else record { scope_id = id; permissions = permissions } ∷ rest

-- `normalizeModels`, `normalizeConfigNamespaces`
unfoldable pub normalize : List String → List ScopedPermissions → List ScopedPermissions
unfolding merge collect
normalize allowed values =
    let merged = merge [] values in collect allowed merged (sort_strings (scopes merged))

unfoldable pub new_principal :
    String → String → Option String → AuthMethod → PermissionSet → Principal
unfolding normalize
new_principal user_id display_name email method permissions = record {
  user_id = user_id;
  display_name = display_name;
  email = email;
  auth_method = method;
  emergency_admin = permissions.emergency_admin;
  high_risk_role = permissions.high_risk_role;
  system_permissions = valid_unique_sorted permissions.system system_permission_codes;
  model_permissions = normalize model_permission_codes permissions.models;
  config_namespace_permissions =
      normalize config_namespace_permission_codes permissions.config_namespace_permissions;
}

unfoldable pub can_manage_security_tier : Principal → Bool
can_manage_security_tier p = p.emergency_admin || p.high_risk_role

-- The map that `CanDelegate` builds holds the codes of the last grant for a scope.
unfoldable pub last_grant : List ScopedPermissions → String → List String → List String
last_grant [] id found = found
last_grant (g ∷ gs) id found = last_grant gs id (if g.scope_id =s= id then g.permissions else found)

-- The loops over `permissions.Models` and `permissions.ConfigNamespacePermissions`.
unfoldable pub covers : List ScopedPermissions → List ScopedPermissions → Bool
unfolding last_grant
covers own wanted =
    all (λ g. all (λ code. contains code (last_grant own g.scope_id [])) g.permissions) wanted

unfoldable pub can_delegate : Principal → PermissionSet → Bool
unfolding can_manage_security_tier covers
can_delegate p permissions =
    if can_manage_security_tier p
    then true
    else all (λ code. contains code p.system_permissions) permissions.system
      && covers p.model_permissions permissions.models
      && covers p.config_namespace_permissions permissions.config_namespace_permissions

-- ===== src/Accounts/Checks.antt =====
-- internal/permission/service.go: the checks of a request, and of what the caller may pass on.
use Prim.Native.Char.{code}
use golang_cms.Prelude.{
  String, ℕ, Bool, true, false, not, ◌&&◌, ◌||◌, List, [], ◌∷◌, ◌++◌, Option, none, some,
  if◌then◌else◌, ◌=s=◌, ◌==◌, ltb, leb, contains, sort_strings, text_le, rune_count,
}
use golang_cms.AppError.{Error, app, conflict, Result, ok, err, ◌>>=◌, guard}
use golang_cms.Identity.Types.{
  Principal, ScopedPermissions, PermissionSet, config_namespace_permission_codes,
}
use golang_cms.Identity.Defs.{can_delegate, can_manage_security_tier, is_empty}
use golang_cms.Permission.Defs.{Tables, denied}
use golang_cms.Accounts.Store.{Validation, valid, invalid, broken, validation, unassembled}
use golang_cms.Accounts.Users.{User}
use golang_cms.Accounts.Grants.{Role, LockedRoleSelection, is_assigned}

abbrev pub builtin_role_immutable : Error
builtin_role_immutable = app conflict "builtin_role_immutable"

abbrev is_lower : ℕ → Bool
is_lower c = leb 97 c && leb c 122

-- `[a-z0-9_]*`
unfoldable pub is_key_rest : String → Bool
is_key_rest String.[] = true
is_key_rest (String.◌∷◌ c s) =
    (is_lower (code c) || ((leb 48 (code c) && leb (code c) 57) || code c == 95)) && is_key_rest s

-- `^[a-z][a-z0-9_]{0,63}$`
unfoldable pub is_role_key : String → Bool
unfolding is_key_rest
is_role_key String.[] = false
is_role_key (String.◌∷◌ c s) = is_lower (code c) && (is_key_rest s && leb (rune_count s) 63)

abbrev pub is_name : String → Bool
is_name name = not (ltb (rune_count name) 1 || ltb 120 (rune_count name))

abbrev pub is_description : String → Bool
is_description text = not (ltb 1000 (rune_count text))

-- `validateRole`: the paths of the details.
unfoldable pub validate_role : String → String → String → List String
unfolding is_role_key
validate_role key name description =
    (if is_role_key key then [] else "/key" ∷ [])
    ++ (if is_name name then [] else "/display_name" ∷ [])
    ++ (if is_description description then [] else "/description" ∷ [])

-- The loop of `invalidCodes`: `seen` are the codes before.
unfoldable pub has_invalid_code : List String → List String → List String → Bool
unfolding contains
has_invalid_code allowed seen [] = false
has_invalid_code allowed seen (v ∷ vs) =
    (not (contains v allowed) || contains v seen) || has_invalid_code allowed (v ∷ seen) vs

-- `invalidCodes`, without the path.
unfoldable pub invalid_codes : List String → List String → Bool
unfolding has_invalid_code
invalid_codes values allowed = has_invalid_code allowed [] values

-- The loop of `duplicates`.
unfoldable pub has_duplicate : List String → List String → Bool
unfolding contains
has_duplicate seen [] = false
has_duplicate seen (v ∷ vs) = (v =s= "" || contains v seen) || has_duplicate (v ∷ seen) vs

unfoldable pub duplicates : List String → Bool
unfolding has_duplicate
duplicates values = has_duplicate [] values

-- `sort.Slice` by the scope; the scopes differ.
unfoldable pub insert_scope : ScopedPermissions → List ScopedPermissions → List ScopedPermissions
insert_scope a [] = a ∷ []
insert_scope a (x ∷ xs) =
    if text_le a.scope_id x.scope_id then a ∷ x ∷ xs else x ∷ insert_scope a xs

unfoldable pub sort_scopes : List ScopedPermissions → List ScopedPermissions
unfolding insert_scope
sort_scopes [] = []
sort_scopes (x ∷ xs) = insert_scope x (sort_scopes xs)

abbrev pub scope_ids : List ScopedPermissions → List String
scope_ids [] = []
scope_ids (g ∷ gs) = g.scope_id ∷ scope_ids gs

-- The loops over the grants of a request: each scope is not empty and new, and has known codes, each
-- once. `required` asks for a code at least. The codes of a grant are sorted.
unfoldable pub check_scopes :
    Bool → List String → List String → List ScopedPermissions → Result (List ScopedPermissions)
unfolding contains invalid_codes sort_strings
check_scopes required allowed seen [] = ok []
check_scopes required allowed seen (g ∷ gs) = do
  _ ← guard (not (g.scope_id =s= "" || contains g.scope_id seen)) validation
  _ ← guard (not (required && is_empty g.permissions)) validation
  _ ← guard (not (invalid_codes g.permissions allowed)) validation
  rest ← check_scopes required allowed (g.scope_id ∷ seen) gs
  ok (record g { permissions = sort_strings g.permissions } ∷ rest)

-- `validateConfigNamespaceGrants`; the identifiers of the namespaces are those of the result.
unfoldable pub validate_config_grants : List ScopedPermissions → Result (List ScopedPermissions)
unfolding check_scopes sort_scopes
validate_config_grants grants = do
  checked ← check_scopes true config_namespace_permission_codes [] grants
  ok (sort_scopes checked)

-- A validator is asked about identifiers if there are some.
unfoldable pub validate_active : Option (List String → Validation) → List String → Result (Unit {0})
validate_active validator ids = elim (is_empty ids) [
  | true ↦ ok tt
  | false ↦ elim validator [
    | none ↦ err unassembled
    | some answer ↦ elim (answer ids) [
      | valid ↦ ok tt
      | invalid ↦ err validation
      | broken e ↦ err e
    ]
  ]
]

-- `canReplaceRoleGrants`
unfoldable pub can_replace_role_grants : Principal → Bool → PermissionSet → PermissionSet → Bool
unfolding can_manage_security_tier can_delegate
can_replace_role_grants who assigned current requested =
    can_manage_security_tier who
    || (not assigned && (can_delegate who current && can_delegate who requested))

-- `authorizeRoleGrantReplacement`
unfoldable pub authorize_role_grants : Principal → Role → PermissionSet → Tables → Result (Unit {0})
unfolding can_manage_security_tier can_replace_role_grants is_assigned
authorize_role_grants who role requested t =
    if can_manage_security_tier who
    then ok tt
    else guard
        (can_replace_role_grants who (is_assigned role.id who.user_id t) role.permissions requested)
        denied

-- `authorizeRoleReplacement`
unfoldable pub authorize_role_replacement :
    Principal → User → LockedRoleSelection → LockedRoleSelection → Result (Unit {0})
unfolding can_manage_security_tier can_delegate
authorize_role_replacement who target current requested = do
  _ ← guard (not (target.emergency_admin && not who.emergency_admin)) denied
  _ ← guard (not (who.user_id =s= target.id && not (can_manage_security_tier who))) denied
  _ ←
      guard
        (not (
          (target.high_risk_role || (current.high_risk || requested.high_risk))
          && not (can_manage_security_tier who)))
        denied
  guard (can_delegate who current.permissions && can_delegate who requested.permissions) denied

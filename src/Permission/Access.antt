-- ===== src/Permission/Access.antt =====
-- The principal that `CurrentPrincipal` builds, against what the tables say of the user.
use golang_cms.Prelude.{
  String, Bool, true, false, not, ◌&&◌, ◌||◌, List, ◌≡◌, arith, ◌=s=◌, if◌then◌else◌, contains, any,
}
use golang_cms.AppError.{ok, err}
use golang_cms.Identity.Types.{
  PermissionSet, Principal, system_permission_codes, model_permission_codes,
}
use golang_cms.Identity.Defs.{can_manage_security_tier}
use golang_cms.Identity.Normalize.{holds}
use golang_cms.Permission.Defs.{
  Tables, column, role_ids, require_system_permission, require_model_permission, denied, is_enabled,
}
use golang_cms.Permission.Grants.{in_tier, role_grants}

-- What the tables allow a user to do with a model, the active models being `ids`.
unfoldable pub allows_model : Tables → List String → String → String → String → Bool
allows_model t ids user m c =
    is_enabled (t.users user)
    && (not (m =s= "")
        && contains c model_permission_codes
        && (if in_tier t user then contains m ids else role_grants t user m c))

-- What they allow him to do with the system.
unfoldable pub allows_system : Tables → String → String → Bool
allows_system t user c =
    is_enabled (t.users user)
    && (contains c system_permission_codes
        && (if in_tier t user
            then true
            else any (λ r. contains c (column r t.role_system_permissions)) (role_ids t user)))

-- What a permission set comes to in a principal.
record Grants (t : Tables) (ids : List String) (user : String) (g : PermissionSet) : Type 0 where
  models :
      (m c : String)
      → (not (m =s= "") && contains c model_permission_codes && holds g.models m c)
        ≡ allows_model t ids user m c
  system :
      (c : String)
      → (contains c system_permission_codes && contains c g.system) ≡ allows_system t user c
  tier : (g.emergency_admin || g.high_risk_role) ≡ (is_enabled (t.users user) && in_tier t user)

pub and_false : (a b : Bool) → (a && b && false) ≡ false
and_false a b = ground arith

-- The tests that a principal made from the set passes.
pub record Passes (t : Tables) (ids : List String) (user : String) (q : Principal) : Type 0 where
  pub models :
      (m c : String)
      → require_model_permission q m c ≡ (if allows_model t ids user m c then ok tt else err denied)
  pub system :
      (c : String)
      → require_system_permission q c ≡ (if allows_system t user c then ok tt else err denied)
  pub tier : can_manage_security_tier q ≡ (is_enabled (t.users user) && in_tier t user)

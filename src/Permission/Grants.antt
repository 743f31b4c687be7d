-- ===== src/Permission/Grants.antt =====
-- Who passes a permission test.
use golang_cms.Prelude.{
  lookup, String, Bool, true, false, ◌&&◌, ◌||◌, List, [], ◌∷◌, ◌++◌, ◌≡◌, refl, arith, eq_iff,
  ◌=s=◌, contains, contains-append, any, any-append, keep,
}
use golang_cms.AppError.{ok}
use golang_cms.Identity.Types.{ScopedPermissions}
use golang_cms.Identity.Normalize.{holds}
use golang_cms.Permission.Defs.{
  ScopeRow, Tables, Providers, column, role_ids, scope_rows, role_system, role_scopes, full_grants,
  has_high_risk, is_enabled, permissions, is_true, ordinary_permissions, tier_permissions,
}

pub contains-keep :
    (p : String → Bool) (c : String) (xs : List String)
    → contains c (keep p xs) ≡ (p c && contains c xs)
unfolding contains keep
contains-keep p c [] = ground arith
contains-keep p c (x ∷ xs) = ground (arith, contains-keep p c xs, eq_iff x c)

-- Some row gives the code to the role in the scope.
unfoldable pub grants_scope : List ScopeRow → String → String → String → Bool
grants_scope rows role scope code =
    any (λ r. r.role_id =s= role && (r.scope =s= scope && r.permission =s= code)) rows

pub holds-append :
    (xs ys : List ScopedPermissions) (m c : String)
    → holds (xs ++ ys) m c ≡ (holds xs m c || holds ys m c)
unfolding holds
holds-append xs ys m c = any-append (λ g. g.scope_id =s= m && contains c g.permissions) xs ys

holds-scope_rows :
    (valid : List String) (role m c : String) (rows : List ScopeRow)
    → holds (scope_rows valid role rows) m c ≡ (contains c valid && grants_scope rows role m c)
unfolding scope_rows holds grants_scope any contains
holds-scope_rows valid role m c [] = ground arith
holds-scope_rows valid role m c (r ∷ rows) = ground (
  arith,
  holds-scope_rows valid role m c rows,
  eq_iff r.role_id role,
  eq_iff r.scope m,
  eq_iff r.permission c,
)

pub holds-role_scopes :
    (valid : List String) (rows : List ScopeRow) (m c : String) (roles : List String)
    → holds (role_scopes valid rows roles) m c
      ≡ (contains c valid && any (λ r. grants_scope rows r m c) roles)
unfolding role_scopes any
holds-role_scopes valid rows m c [] = unfold holds any in ground arith
holds-role_scopes valid rows m c (r ∷ rs) = ground (
  arith,
  holds-role_scopes valid rows m c rs,
  holds-scope_rows valid r m c rows,
  holds-append (scope_rows valid r rows) (role_scopes valid rows rs) m c,
)

pub holds-full_grants :
    (codes ids : List String) (m c : String)
    → holds (full_grants codes ids) m c ≡ (contains m ids && contains c codes)
unfolding full_grants holds any contains
holds-full_grants codes [] m c = refl
holds-full_grants codes (id ∷ ids) m c = ground (arith, holds-full_grants codes ids m c)

pub contains-role_system :
    (valid : List String) (rows : List (String × String)) (c : String) (roles : List String)
    → contains c (role_system valid rows roles)
      ≡ (contains c valid && any (λ r. contains c (column r rows)) roles)
unfolding role_system any
contains-role_system valid rows c [] = unfold contains in ground arith
contains-role_system valid rows c (r ∷ rs) = ground (
  arith,
  contains-role_system valid rows c rs,
  contains-keep (λ code. contains code valid) c (column r rows),
  contains-append c (keep (λ code. contains code valid) (column r rows))
      (role_system valid rows rs),
)

-- The user is enabled, and some role of his grants the model permission.
unfoldable pub role_grants : Tables → String → String → String → Bool
role_grants t user model code =
    any (λ r. grants_scope t.role_model_permissions r model code) (role_ids t user)

-- Whether the tables put a user in the security tier.
unfoldable pub in_tier : Tables → String → Bool
in_tier t user = is_true (lookup user t.local_credentials) || has_high_risk t (role_ids t user)

-- The code lists are compared as they stand, so they are closed here.
pub permissions-ordinary :
    (t : Tables) (p : Providers) (user : String)
    → is_enabled (t.users user) ≡ true
    → in_tier t user ≡ false
    → permissions t p user ≡ ok (ordinary_permissions t (role_ids t user))
unfolding permissions in_tier
permissions-ordinary t p user e h = ground arith

pub permissions-tier :
    (t : Tables) (p : Providers) (user : String)
    → is_enabled (t.users user) ≡ true
    → in_tier t user ≡ true
    → permissions t p user
      ≡ tier_permissions p
          (is_true (lookup user t.local_credentials))
          (has_high_risk t (role_ids t user))
unfolding permissions in_tier
permissions-tier t p user e h = ground arith

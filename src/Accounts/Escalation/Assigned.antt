-- ===== src/Accounts/Escalation/Assigned.antt =====
-- `ReplaceUserRoles`: an ordinary caller has what the requested roles grant.
use golang_cms.Prelude.{
  String, Bool, true, false, not, ◌&&◌, ◌||◌, List, Option, none, some, ◌≡◌, refl, ◌∙◌, sym, ap,
  arith, any, contains, contains-append, contains-sort_strings, ◌=s=◌,
}
use golang_cms.AppError.{ok, err, ◌>>◌, guard, ok-guard}
use golang_cms.Identity.Types.{Principal}
use golang_cms.Identity.Normalize.{holds}
use golang_cms.Identity.Defs.{can_delegate, can_manage_security_tier}
use golang_cms.Identity.Delegate.{IsNormal, can_delegate_sound}
use golang_cms.Permission.Defs.{
  Tables, RoleRow, UserRow, column, is_some, is_high, is_high_risk, denied,
}
use golang_cms.Permission.Grants.{grants_scope, holds-append}
use golang_cms.Accounts.Users.{User, get_user, user_of, user_not_found}
use golang_cms.Accounts.Grants.{
  Role, get_role, load_grants, LockedRoleSelection, lock_role_transition, replace_user_roles,
}
use golang_cms.Accounts.Checks.{authorize_role_replacement}
use golang_cms.Accounts.Rows.{holds-load_scopes}
use golang_cms.Accounts.Selection.{any_of, lock_role_transition-requested}
use golang_cms.Accounts.Escalation.{Step}
use golang_cms.Accounts.Escalation.Linked.{ok-injective}
use golang_cms.Accounts.Escalation.Steps.{replace_user_roles-Step}

-- What the checks of `authorizeRoleReplacement` leave to an ordinary caller.
record IsOrdinary (who : Principal) (target : User) (requested : LockedRoleSelection) : Type 0 where
  target_low : target.high_risk_role ≡ false
  requested_low : requested.high_risk ≡ false
  delegated : can_delegate who requested.permissions ≡ true

authorize_role_replacement-IsOrdinary :
    (who : Principal) (target : User) (current requested : LockedRoleSelection)
    → can_manage_security_tier who ≡ false
    → authorize_role_replacement who target current requested ≡ ok tt
    → IsOrdinary who target requested
unfolding authorize_role_replacement
authorize_role_replacement-IsOrdinary who target current requested ordinary h =
    let a : Bool = not (target.emergency_admin && not who.emergency_admin) in
    let b : Bool = not (who.user_id =s= target.id && not (can_manage_security_tier who)) in
    let c : Bool = not (
      (target.high_risk_role || (current.high_risk || requested.high_risk))
      && not (can_manage_security_tier who)) in
    let d : Bool = can_delegate who current.permissions && can_delegate who requested.permissions in
    ok-guard a denied (guard b denied >> (guard c denied >> guard d denied)) h λ _ k.
      ok-guard b denied (guard c denied >> guard d denied) k λ _ k2.
        ok-guard c denied (guard d denied) k2 λ low k3. record {
          target_low = ground arith;
          requested_low = ground arith;
          delegated = ground arith;
        }

abbrev role_at : Tables → String → RoleRow → Role
role_at t r row = record { id = r; row = row; permissions = load_grants t r }

get_role_at :
    (t : Tables) (r : String) (row : RoleRow)
    → t.roles r ≡ some row
    → get_role t r ≡ ok (role_at t r row)
unfolding get_role
get_role_at t r row e = rw (e, get_role) refl

get_user-high_risk_role :
    (t : Tables) (id : String) (user : User)
    → get_user t id ≡ ok user
    → any (λ r. is_high_risk (t.roles r)) (column id t.user_roles) ≡ user.high_risk_role
unfolding get_user user_of
get_user-high_risk_role t id user h = go (t.users id) h
  where
    go :
        (o : Option UserRow)
        → elim o [ none ↦ err user_not_found | some row ↦ ok (user_of t id row) ] ≡ ok user
        → any (λ r. is_high_risk (t.roles r)) (column id t.user_roles) ≡ user.high_risk_role
    go none k = absurd (cc)
    go (some row) k = ap (λ (u : User). u.high_risk_role) (ok-injective k)

module _ (who : Principal) (t : Tables) (old ids : List String)
    (current requested : LockedRoleSelection)
    (locked : lock_role_transition t old ids ≡ ok (current, requested)) (r : String)
    (wanted : contains r ids ≡ true) (row : RoleRow) (known : t.roles r ≡ some row) where
  requested-high : is_high row.kind ≡ true → requested.high_risk ≡ true
  requested-high h =
      lock_role_transition-requested (λ s. s.high_risk) (λ role. is_high role.row.kind)
        (λ s role. refl) t old ids current requested r (role_at t r row) locked wanted
        (get_role_at t r row known) h

  requested-models :
      (m c : String)
      → grants_scope t.role_model_permissions r m c ≡ true
      → holds requested.permissions.models m c ≡ true
  unfolding load_grants
  requested-models m c h =
      lock_role_transition-requested (λ s. holds s.permissions.models m c)
        (λ role. holds role.permissions.models m c)
        (λ s role. holds-append s.permissions.models role.permissions.models m c) t old ids current
        requested r (role_at t r row) locked wanted (get_role_at t r row known)
        (holds-load_scopes r m c t.role_model_permissions ∙ h)

  requested-configs :
      (n c : String)
      → grants_scope t.role_config_namespace_permissions r n c ≡ true
      → holds requested.permissions.config_namespace_permissions n c ≡ true
  unfolding load_grants
  requested-configs n c h =
      lock_role_transition-requested (λ s. holds s.permissions.config_namespace_permissions n c)
        (λ role. holds role.permissions.config_namespace_permissions n c)
        (λ s role.
          holds-append s.permissions.config_namespace_permissions
            role.permissions.config_namespace_permissions n c)
        t old ids current requested r (role_at t r row) locked wanted (get_role_at t r row known)
        (holds-load_scopes r n c t.role_config_namespace_permissions ∙ h)

  requested-system :
      (c : String)
      → contains c (column r t.role_system_permissions) ≡ true
      → contains c requested.permissions.system ≡ true
  unfolding load_grants
  requested-system c h =
      lock_role_transition-requested (λ s. contains c s.permissions.system)
        (λ role. contains c role.permissions.system)
        (λ s role. contains-append c s.permissions.system role.permissions.system) t old ids current
        requested r (role_at t r row) locked wanted (get_role_at t r row known)
        (contains-sort_strings c (column r t.role_system_permissions) ∙ h)

any-false :
    (p : String → Bool) (a : String) (xs : List String)
    → contains a xs ≡ true
    → any p xs ≡ false
    → p a ≡ false
any-false p a xs h k = ground (arith, any_of p a xs)

-- A statement on a known role, for one that is some.
pub of_known :
    {P : Type 0} (o : Option RoleRow) → is_some o ≡ true → ((row : RoleRow) → o ≡ some row → P) → P
of_known none h k = absurd (cc)
of_known (some row) h k = k row refl

pub low_or_absent :
    (o : Option RoleRow)
    → ((row : RoleRow) → o ≡ some row → is_high row.kind ≡ true → false ≡ true)
    → is_high_risk o ≡ false
low_or_absent none k = refl
low_or_absent (some row) k = ground (arith, k row refl)

pub user_roles-Step :
    (who : Principal) (t t' : Tables) (user : User) (user_id : String) (ids : List String)
    (current requested : LockedRoleSelection)
    → IsNormal who
    → can_manage_security_tier who ≡ false
    → get_user t user_id ≡ ok user
    → lock_role_transition t user.role_ids ids ≡ ok (current, requested)
    → authorize_role_replacement who user current requested ≡ ok tt
    → replace_user_roles user_id ids t ≡ ok t'
    → Step who t t'
user_roles-Step who t t' user user_id ids current requested normal ordinary found locked may done =
    let o = authorize_role_replacement-IsOrdinary who user current requested ordinary may in
    let within = can_delegate_sound who requested.permissions normal o.delegated ordinary in
    replace_user_roles-Step who user_id ids t t' done
      (λ r h.
        any-false (λ r. is_high_risk (t.roles r)) r (column user_id t.user_roles) h
          (get_user-high_risk_role t user_id user found ∙ o.target_low))
      (λ r h. low_or_absent (t.roles r) λ row e high.
        sym o.requested_low
        ∙ requested-high who t user.role_ids ids current requested locked r h row e high)
      (λ r m c h k g. of_known (t.roles r) k λ row e.
        within.models m c
          (requested-models who t user.role_ids ids current requested locked r h row e m c g))
      (λ r c h k g. of_known (t.roles r) k λ row e.
        within.system c
          (requested-system who t user.role_ids ids current requested locked r h row e c g))
      (λ r n c h k g. of_known (t.roles r) k λ row e.
        within.configs n c
          (requested-configs who t user.role_ids ids current requested locked r h row e n c g))

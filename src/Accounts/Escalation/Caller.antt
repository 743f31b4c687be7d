-- ===== src/Accounts/Escalation/Caller.antt =====
-- The caller of a transaction, and what its checks say that he has.
use golang_cms.Prelude.{
  String, Bool, true, false, not, ◌≡◌, refl, ◌∙◌, sym, arith, subst, Option, none, some, ap, ap,
}
use golang_cms.AppError.{ok, err, ok-bind, ok-guard}
use golang_cms.Audit.{append_to}
use golang_cms.Identity.Types.{Principal, PermissionSet}
use golang_cms.Identity.Defs.{can_delegate, can_manage_security_tier}
use golang_cms.Identity.Delegate.{IsNormal, IsWithin, new_principal-IsNormal, can_delegate_sound}
use golang_cms.Permission.Defs.{
  Tables, RoleRow, is_high, permissions, current_principal, require_system_permission,
}
use golang_cms.Accounts.Store.{AccountEnv, AccessDb, refreshed, manager, write_audit}
use golang_cms.Accounts.Grants.{Role, get_role, is_assigned, load_grants, role_not_found}
use golang_cms.Accounts.Checks.{
  builtin_role_immutable, can_replace_role_grants, authorize_role_grants,
}
use golang_cms.Accounts.Roles.{custom_role}
use golang_cms.Accounts.Escalation.Linked.{ok-injective}

pub refreshed-IsNormal :
    (env : AccountEnv) (t : Tables) (who : Principal) → refreshed env t ≡ ok who → IsNormal who
unfolding refreshed current_principal
refreshed-IsNormal env t who h =
    let p = env.principal in
    ok-bind (permissions t env.providers p.user_id) _ h λ granted e k.
      subst IsNormal (ok-injective k)
        (new_principal-IsNormal p.user_id p.display_name p.email p.auth_method granted)

pub manager-refreshed :
    (env : AccountEnv) (required : String) (t : Tables) (who : Principal)
    → manager env required t ≡ ok who
    → refreshed env t ≡ ok who
unfolding manager
manager-refreshed env required t who h =
    ok-bind (refreshed env t) _ h
      λ q e k. ok-bind (require_system_permission q required) _ k λ _ e2 k2. e ∙ k2

pub write_audit-tables :
    (env : AccountEnv) (who : Principal) (action kind id : String) (db db' : AccessDb)
    → write_audit env who action kind id db ≡ ok db'
    → db'.tables ≡ db.tables
unfolding write_audit
write_audit-tables env who action kind id db db' h = ok-bind (env.new_id "evt_") _ h λ event e k.
    ok-bind (append_to env.audit_check _ db.audit_events) _ k
      λ log e2 k2. sym (ap (λ d. d.tables) (ok-injective k2))

can_replace-delegates :
    (who : Principal) (assigned : Bool) (current requested : PermissionSet)
    → can_manage_security_tier who ≡ false
    → can_replace_role_grants who assigned current requested ≡ true
    → can_delegate who requested ≡ true
unfolding can_replace_role_grants
can_replace-delegates who assigned current requested ordinary h = ground arith

-- An ordinary caller who may change the grants of a role has what it is to grant.
pub authorize_role_grants-IsWithin :
    (who : Principal) (role : Role) (requested : PermissionSet) (t : Tables)
    → IsNormal who
    → can_manage_security_tier who ≡ false
    → authorize_role_grants who role requested t ≡ ok tt
    → IsWithin who requested
unfolding authorize_role_grants
authorize_role_grants-IsWithin who role requested t normal ordinary h =
    let assigned : Bool = is_assigned role.id who.user_id t in
    let may : can_replace_role_grants who assigned role.permissions requested ≡ true =
      ground arith in
    can_delegate_sound who requested normal
      (can_replace-delegates who assigned role.permissions requested ordinary may) ordinary

-- The role is read from the tables, and it is not the built-in one.
pub record IsCustom (t : Tables) (id : String) (role : Role) : Type 0 where
  pub row : t.roles id ≡ some role.row
  pub same_id : role.id ≡ id
  pub granted : role.permissions ≡ load_grants t id
  pub low : is_high role.row.kind ≡ false

get_role-row :
    (id : String) (t : Tables) (role : Role)
    → get_role t id ≡ ok role
    → is_high role.row.kind ≡ false
    → IsCustom t id role
unfolding get_role
get_role-row id t role h low = go (t.roles id) refl h
  where
    go :
        (o : Option RoleRow)
        → t.roles id ≡ o
        → elim o [
          | none ↦ err role_not_found
          | some row ↦ ok (record { id = id; row = row; permissions = load_grants t id })
        ]
          ≡ ok role
        → IsCustom t id role
    go none e k = absurd (cc)
    go (some row) e k = record {
      row = e ∙ ap (λ (r : Role). some r.row) (ok-injective k);
      same_id = sym (ap (λ (r : Role). r.id) (ok-injective k));
      granted = sym (ap (λ (r : Role). r.permissions) (ok-injective k));
      low = low;
    }

pub custom_role-IsCustom :
    (id : String) (t : Tables) (role : Role) → custom_role id t ≡ ok role → IsCustom t id role
unfolding custom_role
custom_role-IsCustom id t role h = ok-bind (get_role t id) _ h λ r e k.
    ok-guard (not (is_high r.row.kind)) builtin_role_immutable _ k λ low k2.
      get_role-row id t role (e ∙ k2)
        (subst (λ (r : Role). is_high r.row.kind ≡ false) (ok-injective k2) (ground arith))

-- ===== src/Accounts/Escalation/Written.antt =====
-- `CreateRole` and `UpdateRole`, as steps of their caller.
use golang_cms.Prelude.{String, false, List, Option, none, some, ◌≡◌, refl, ap, subst, sort_strings}
use golang_cms.AppError.{ok, ok-bind, ok-guard}
use golang_cms.Identity.Types.{Principal, ScopedPermissions}
use golang_cms.Identity.Defs.{can_delegate, can_manage_security_tier}
use golang_cms.Identity.Delegate.{IsNormal, can_delegate_sound}
use golang_cms.Permission.Defs.{Tables, RoleRow, custom, denied}
use golang_cms.Accounts.Store.{AccountEnv, AccessDb, validation, manager, write_audit}
use golang_cms.Accounts.Grants.{Role, get_role, create_role, update_row, replace_config_permissions}
use golang_cms.Accounts.Checks.{
  is_name, is_description, scope_ids, validate_active, authorize_role_grants,
}
use golang_cms.Accounts.Roles.{
  CreateRoleRequest, UpdateRoleRequest, only_configs, create_tx, custom_role, passes, or_else,
  or_else, update_configs, update_role_tx,
}
use golang_cms.Accounts.Escalation.{Step}
use golang_cms.Accounts.Escalation.Linked.{
  Linked, ok-injective, create_role-Linked, update_row-Linked, replace_config_permissions-Linked,
}
use golang_cms.Accounts.Escalation.Kept.{
  Kept, kept, Kept-trans, create_role-Kept, update_row-Kept, replace_config_permissions-Kept,
}
use golang_cms.Accounts.Escalation.Steps.{
  Step-refl, Step-trans, create_role-Step, update_row-Step, replace_config_permissions-Step,
}
use golang_cms.Accounts.Escalation.Caller.{authorize_role_grants-IsWithin}
use golang_cms.Accounts.Escalation.Transactions.{Outcome, audited, answered, by_manager}

pub create_tx-Outcome :
    (env : AccountEnv) (request : CreateRoleRequest) (configs : List ScopedPermissions)
    (id : String) (db db' : AccessDb) (role : Role)
    → create_tx env request configs id db ≡ ok (role, db')
    → Outcome env db.tables db'.tables
unfolding create_tx
create_tx-Outcome env request configs id db db' role h =
    let t = db.tables in
    let row : RoleRow = record {
      key = request.key;
      kind = custom;
      display_name = request.display_name;
      description = request.description;
      created_at = env.now;
      updated_at = env.now;
    } in
    ok-bind (manager env "roles.manage" t) _ h λ who e k.
      ok-guard (can_delegate who (only_configs configs)) denied _ k λ may k2.
        ok-bind (validate_active env.config_namespaces (sort_strings (scope_ids configs))) _ k2
          λ u _ k3. ok-bind (create_role id row t) _ k3 λ t1 e4 k4.
            ok-bind (replace_config_permissions id configs t1) _ k4 λ t2 e5 k5.
              ok-bind (write_audit env who "role_created" "role" id (record db { tables = t2 })) _
                k5
                λ db2 e6 k6.
                  subst (λ (d : AccessDb). Outcome env t d.tables) (ap (λ x. x.1) (ok-injective k6))
                    (audited env t t2 who _ _ id db db2 e6 (
                      by_manager env t t2 who e
                        (Kept-trans t t1 t2 (create_role-Kept t t1 id row e4)
                          (replace_config_permissions-Kept t1 t2 id configs e5))
                        (λ l.
                          replace_config_permissions-Linked t1 t2
                            (create_role-Linked t t1 l id row e4) id configs e5)
                        (λ normal ordinary l.
                          Step-trans who t t1 t2 (create_role-Step who id row t t1 e4 l) (
                            replace_config_permissions-Step who t1 t2 id configs e5
                              (can_delegate_sound who (only_configs configs) normal may
                                ordinary).configs))))

record Configured (who : Principal) (t t1 : Tables) : Type 0 where
  same : Kept t t1
  linked : Linked t → Linked t1
  step : IsNormal who → can_manage_security_tier who ≡ false → Step who t t1

update_configs-Configured :
    (env : AccountEnv) (who : Principal) (role : Role) (configs : Option (List ScopedPermissions))
    (t t1 : Tables)
    → update_configs env who role configs t ≡ ok t1
    → Configured who t t1
unfolding update_configs
update_configs-Configured env who role none t t1 h =
    subst (Configured who t) (ok-injective h)
      (record { same = kept t; linked = λ l. l; step = λ normal ordinary. Step-refl who t })
update_configs-Configured env who role (some configs) t t1 h =
    let requested = record role.permissions { config_namespace_permissions = configs } in
    ok-bind (authorize_role_grants who role requested t) _ h λ u e k.
      ok-bind (validate_active env.config_namespaces (sort_strings (scope_ids configs))) _ k
        λ _ _ e2. record {
          same = replace_config_permissions-Kept t t1 role.id configs e2;
          linked = λ l. replace_config_permissions-Linked t t1 l role.id configs e2;
          step = λ normal ordinary.
              replace_config_permissions-Step who t t1 role.id configs e2
                (authorize_role_grants-IsWithin who role requested t normal ordinary e).configs;
        }

pub update_role_tx-Outcome :
    (env : AccountEnv) (id : String) (request : UpdateRoleRequest)
    (configs : Option (List ScopedPermissions)) (db db' : AccessDb) (role : Role)
    → update_role_tx env id request configs db ≡ ok (role, db')
    → Outcome env db.tables db'.tables
unfolding update_role_tx
update_role_tx-Outcome env id request configs db db' role h =
    let t = db.tables in
    ok-bind (manager env "roles.manage" t) _ h λ who e k.
      ok-bind (custom_role id t) _ k λ old e2 k2.
        ok-guard (passes is_name request.display_name) validation _ k2 λ _ k3.
          ok-guard (passes is_description request.description) validation _ k3 λ _ k4.
            ok-bind (update_configs env who old configs t) _ k4 λ t1 e5 k5.
              let c = update_configs-Configured env who old configs t t1 e5 in
              let f : RoleRow → RoleRow = λ row. record row {
                display_name = or_else request.display_name old.row.display_name;
                description = or_else request.description old.row.description;
                updated_at = env.now;
              } in
              ok-bind
                (write_audit env who "role_updated" "role" id
                  (record db { tables = update_row id f t1 }))
                _ k5
                λ db2 e6 k6. answered env t (get_role db2.tables id) db2 db' role k6 (
                  audited env t (update_row id f t1) who _ _ id db db2 e6 (
                    by_manager env t _ who e (Kept-trans t t1 _ c.same (update_row-Kept id f t1))
                      (λ l. update_row-Linked t1 (c.linked l) id f)
                      (λ normal ordinary l.
                        Step-trans who t t1 _ (c.step normal ordinary)
                          (update_row-Step who id f t1 (λ row. refl)))))

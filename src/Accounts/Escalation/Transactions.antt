-- ===== src/Accounts/Escalation/Transactions.antt =====
-- Each transaction of the role service, as one step of its caller.
use golang_cms.Prelude.{
  String, false, ◌||◌, List, ◌≡◌, refl, sym, ap, subst, ◌==◌, length, sort_strings,
}
use golang_cms.AppError.{Result, ok, ◌>>=◌, ok-bind, ok-guard}
use golang_cms.Identity.Types.{Principal, ScopedPermissions}
use golang_cms.Identity.Defs.{can_manage_security_tier}
use golang_cms.Identity.Delegate.{IsNormal}
use golang_cms.Permission.Defs.{Tables, denied}
use golang_cms.Accounts.Store.{
  AccountEnv, AccessDb, validation, unassembled, refreshed, manager, write_audit,
}
use golang_cms.Accounts.Users.{User, get_user}
use golang_cms.Accounts.Grants.{
  Role, get_role, touch_role, delete_role, replace_user_roles, replace_system_permissions,
  replace_model_permissions, is_assigned, lock_role_transition,
}
use golang_cms.Accounts.Checks.{
  scope_ids, validate_active, can_replace_role_grants, authorize_role_grants,
  authorize_role_replacement,
}
use golang_cms.Accounts.Roles.{custom_role, delete_tx, user_roles_tx, system_tx, model_tx}
use golang_cms.Accounts.Escalation.{Step}
use golang_cms.Accounts.Escalation.Linked.{
  Linked, ok-injective, update_row-Linked, delete_role-Linked, replace_model_permissions-Linked,
  replace_system_permissions-Linked, replace_user_roles-Linked,
}
use golang_cms.Accounts.Escalation.Kept.{
  Kept, Kept-trans, update_row-Kept, delete_role-Kept, replace_model_permissions-Kept,
  replace_system_permissions-Kept, replace_user_roles-Kept,
}
use golang_cms.Accounts.Escalation.Steps.{
  Step-trans, update_row-Step, delete_role-Step, replace_model_permissions-Step,
  replace_system_permissions-Step,
}
use golang_cms.Accounts.Escalation.Caller.{
  refreshed-IsNormal, manager-refreshed, write_audit-tables, authorize_role_grants-IsWithin,
  custom_role-IsCustom,
}
use golang_cms.Accounts.Escalation.Assigned.{user_roles-Step}

-- What a transaction that succeeds says of its caller and of the tables.
pub record Outcome (env : AccountEnv) (t t' : Tables) : Type 0 where
  pub who : Principal
  pub caller : refreshed env t ≡ ok who
  pub kept : Kept t t'
  pub linked : Linked t → Linked t'
  pub step : can_manage_security_tier who ≡ false → Linked t → Step who t t'

-- The end of a transaction: the tables are those before the event.
pub audited :
    (env : AccountEnv) (t t1 : Tables) (who : Principal) (action kind id : String)
    (db db' : AccessDb)
    → write_audit env who action kind id (record db { tables = t1 }) ≡ ok db'
    → Outcome env t t1
    → Outcome env t db'.tables
audited env t t1 who action kind id db db' h o =
    subst (Outcome env t) (sym (write_audit-tables env who action kind id _ db' h)) o

-- The last read of a transaction changes nothing.
pub answered :
    {A : Type 0} (env : AccountEnv) (t : Tables) (m : Result A) (db db' : AccessDb) (a : A)
    → (m >>= λ result. let r : A × AccessDb = (result, db) in ok r) ≡ ok (a, db')
    → Outcome env t db.tables
    → Outcome env t db'.tables
answered env t m db db' a h o = ok-bind m _ h λ result e k.
    subst (λ (d : AccessDb). Outcome env t d.tables) (ap (λ x. x.1) (ok-injective k)) o

pub by_manager :
    (env : AccountEnv) (t t1 : Tables) (who : Principal)
    → manager env "roles.manage" t ≡ ok who
    → Kept t t1
    → (Linked t → Linked t1)
    → (IsNormal who → can_manage_security_tier who ≡ false → Linked t → Step who t t1)
    → Outcome env t t1
by_manager env t t1 who e same linked step =
    let caller = manager-refreshed env "roles.manage" t who e in
    record {
      who = who;
      caller = caller;
      kept = same;
      linked = linked;
      step = step (refreshed-IsNormal env t who caller);
    }

module _ (env : AccountEnv) (id : String) (db db' : AccessDb) where
  pub system_tx-Outcome :
      (values : List String) (role : Role)
      → system_tx env id values db ≡ ok (role, db')
      → Outcome env db.tables db'.tables
  unfolding system_tx touch_role
  system_tx-Outcome values role h =
      let t = db.tables in
      ok-bind (manager env "roles.manage" t) _ h λ who e k.
        ok-bind (custom_role id t) _ k λ old e2 k2.
          let requested = record old.permissions { system = values } in
          ok-bind (authorize_role_grants who old requested t) _ k2 λ u e3 k3.
            ok-bind (replace_system_permissions id values t) _ k3 λ t1 e4 k4.
              ok-bind
                (write_audit env who "role_system_permissions_replaced" "role" id
                  (record db { tables = touch_role id env.now t1 }))
                _ k4
                λ db2 e5 k5. answered env t (get_role db2.tables id) db2 db' role k5 (
                  audited env t (touch_role id env.now t1) who _ _ id db db2 e5 (
                    by_manager env t _ who e
                      (Kept-trans t t1 _ (replace_system_permissions-Kept t t1 id values e4)
                        (update_row-Kept id _ t1))
                      (λ l.
                        update_row-Linked t1 (replace_system_permissions-Linked t t1 l id values e4)
                          id _)
                      (λ normal ordinary l.
                        Step-trans who t t1 _
                          (replace_system_permissions-Step who t t1 id values e4
                            (authorize_role_grants-IsWithin who old requested t normal ordinary
                              e3).system)
                          (update_row-Step who id _ t1 (λ row. refl)))))

  pub model_tx-Outcome :
      (grants : List ScopedPermissions) (role : Role)
      → model_tx env id grants db ≡ ok (role, db')
      → Outcome env db.tables db'.tables
  unfolding model_tx touch_role
  model_tx-Outcome grants role h =
      let t = db.tables in
      ok-bind (manager env "roles.manage" t) _ h λ who e k.
        ok-bind (custom_role id t) _ k λ old e2 k2.
          let requested = record old.permissions { models = grants } in
          ok-bind (authorize_role_grants who old requested t) _ k2 λ u e3 k3.
            ok-bind (validate_active env.models (sort_strings (scope_ids grants))) _ k3 λ u2 _ k3b.
              ok-bind (replace_model_permissions id grants t) _ k3b λ t1 e4 k4.
                ok-bind
                  (write_audit env who "role_model_permissions_replaced" "role" id
                    (record db { tables = touch_role id env.now t1 }))
                  _ k4
                  λ db2 e5 k5. answered env t (get_role db2.tables id) db2 db' role k5 (
                    audited env t (touch_role id env.now t1) who _ _ id db db2 e5 (
                      by_manager env t _ who e
                        (Kept-trans t t1 _ (replace_model_permissions-Kept t t1 id grants e4)
                          (update_row-Kept id _ t1))
                        (λ l.
                          update_row-Linked t1
                            (replace_model_permissions-Linked t t1 l id grants e4) id _)
                        (λ normal ordinary l.
                          Step-trans who t t1 _
                            (replace_model_permissions-Step who t t1 id grants e4
                              (authorize_role_grants-IsWithin who old requested t normal ordinary
                                e3).models)
                            (update_row-Step who id _ t1 (λ row. refl)))))

  pub delete_tx-Outcome : delete_tx env id db ≡ ok (tt, db') → Outcome env db.tables db'.tables
  unfolding delete_tx
  delete_tx-Outcome h =
      let t = db.tables in
      ok-bind (manager env "roles.manage" t) _ h λ who e k.
        ok-bind (custom_role id t) _ k λ old e2 k2.
          ok-guard
            (can_manage_security_tier who
              || can_replace_role_grants who (is_assigned old.id who.user_id t) old.permissions
                  old.permissions)
            denied _ k2
            λ may k3.
              ok-bind
                (write_audit env who "role_deleted" "role" id
                  (record db { tables = delete_role id t }))
                _ k3
                λ db2 e5 k5.
                  subst (λ (d : AccessDb). Outcome env t d.tables) (ap (λ x. x.1) (ok-injective k5))
                    (audited env t (delete_role id t) who _ _ id db db2 e5 (
                      by_manager env t _ who e (delete_role-Kept id t)
                        (λ l. delete_role-Linked t l id)
                        (λ normal ordinary l.
                          let c = custom_role-IsCustom id t old e2 in
                          delete_role-Step who id old.row t c.row c.low)))

  pub user_roles_tx-Outcome :
      (ids : List String) (user : User)
      → user_roles_tx env id ids db ≡ ok (user, db')
      → Outcome env db.tables db'.tables
  unfolding user_roles_tx
  user_roles_tx-Outcome ids user h =
      let t = db.tables in
      ok-bind (manager env "roles.manage" t) _ h λ who e k.
        ok-guard env.has_users unassembled _ k λ _ k1. ok-bind (get_user t id) _ k1 λ target e2 k2.
          ok-bind (lock_role_transition t target.role_ids ids) _ k2 λ pair e3 k3.
            ok-guard (pair.1.count == length ids) validation _ k3 λ _ k4.
              ok-bind (authorize_role_replacement who target pair.0 pair.1) _ k4 λ u e5 k5.
                ok-bind (replace_user_roles id ids t) _ k5 λ t1 e6 k6.
                  ok-bind
                    (write_audit env who "user_roles_replaced" "user" id
                      (record db { tables = t1 }))
                    _ k6
                    λ db2 e7 k7. ok-bind (get_user db2.tables id) _ k7 λ result e8 k8.
                      subst (λ (d : AccessDb). Outcome env t d.tables)
                        (ap (λ x. x.1) (ok-injective k8))
                        (audited env t t1 who _ _ id db db2 e7 (
                          by_manager env t _ who e (replace_user_roles-Kept t t1 id ids e6)
                            (λ l. replace_user_roles-Linked t t1 l id ids e6)
                            (λ normal ordinary l.
                              user_roles-Step who t t1 target id ids pair.0 pair.1 normal ordinary
                                e2 e3 e5 e6)))

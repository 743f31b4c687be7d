-- ===== src/Accounts/Escalation/Calls.antt =====
-- The calls of the role service, one and in sequence.
use golang_cms.Prelude.{false, ◌≡◌, ◌∙◌, sym, ap, subst, sort_strings}
use golang_cms.AppError.{Error, ok, err}
use golang_cms.Identity.Types.{Principal}
use golang_cms.Identity.Defs.{can_manage_security_tier}
use golang_cms.Accounts.Store.{AccountEnv, AccessDb, refreshed}
use golang_cms.Accounts.Checks.{sort_scopes}
use golang_cms.Accounts.Roles.{
  RoleCall, creates, updates, deletes, assigns, grants_system, grants_model, role_call, create_tx,
  update_role_tx, delete_tx, user_roles_tx, system_tx, model_tx, create_role_call, update_role_call,
  delete_role_call, replace_user_roles_call, replace_system_call, replace_model_call,
}
use golang_cms.Accounts.Ended.{
  Ended, before-Ended, within_tx-Ended, without_value-Ended, Ended-ok, Ended-err,
}
use golang_cms.Accounts.Escalation.{IsBounded, Step-IsBounded}
use golang_cms.Accounts.Escalation.Linked.{Linked, ok-injective}
use golang_cms.Accounts.Escalation.Transactions.{
  Outcome, system_tx-Outcome, model_tx-Outcome, delete_tx-Outcome, user_roles_tx-Outcome,
}
use golang_cms.Accounts.Escalation.Written.{create_tx-Outcome, update_role_tx-Outcome}

abbrev Happened : AccountEnv → AccessDb → AccessDb → Type 0
Happened env db db' = Outcome env db.tables db'.tables

pub role_call-Ended :
    (env : AccountEnv) (call : RoleCall) (db : AccessDb)
    → Ended (Happened env db) db (role_call env call db)
unfolding role_call create_role_call update_role_call delete_role_call replace_user_roles_call
    replace_system_call replace_model_call
role_call-Ended env (creates request) db = without_value-Ended (Happened env db) db _ (
    before-Ended (Happened env db) db _ _ λ _. before-Ended (Happened env db) db _ _ λ configs.
      before-Ended (Happened env db) db _ _ λ id.
        within_tx-Ended (Happened env db) db env.commit (create_tx env request configs id)
          λ a db'. create_tx-Outcome env request configs id db db' a)
role_call-Ended env (updates id request) db = without_value-Ended (Happened env db) db _ (
    before-Ended (Happened env db) db _ _ λ _. before-Ended (Happened env db) db _ _ λ configs.
      within_tx-Ended (Happened env db) db env.commit (update_role_tx env id request configs)
        λ a db'. update_role_tx-Outcome env id request configs db db' a)
role_call-Ended env (deletes id) db =
    within_tx-Ended (Happened env db) db env.commit (delete_tx env id)
      λ a db'. delete_tx-Outcome env id db db'
role_call-Ended env (assigns user ids) db = without_value-Ended (Happened env db) db _ (
    before-Ended (Happened env db) db _ _ λ _.
      within_tx-Ended (Happened env db) db env.commit (user_roles_tx env user (sort_strings ids))
        λ a db'. user_roles_tx-Outcome env user db db' (sort_strings ids) a)
role_call-Ended env (grants_system id values) db = without_value-Ended (Happened env db) db _ (
    before-Ended (Happened env db) db _ _ λ _.
      within_tx-Ended (Happened env db) db env.commit (system_tx env id (sort_strings values))
        λ a db'. system_tx-Outcome env id db db' (sort_strings values) a)
role_call-Ended env (grants_model id grants) db = without_value-Ended (Happened env db) db _ (
    before-Ended (Happened env db) db _ _ λ checked.
      within_tx-Ended (Happened env db) db env.commit (model_tx env id (sort_scopes checked))
        λ a db'. model_tx-Outcome env id db db' (sort_scopes checked) a)

-- A call that fails leaves the tables, the sessions and the audit log as they were.
pub role_call-failed :
    (env : AccountEnv) (call : RoleCall) (db db' : AccessDb) (e : Error)
    → role_call env call db ≡ (err e, db')
    → db' ≡ db
role_call-failed env call db db' e h =
    Ended-err (Happened env db) db (role_call env call db) e db' (role_call-Ended env call db) h

pub role_call-Outcome :
    (env : AccountEnv) (call : RoleCall) (db db' : AccessDb)
    → role_call env call db ≡ (ok tt, db')
    → Outcome env db.tables db'.tables
role_call-Outcome env call db db' h =
    Ended-ok (Happened env db) db (role_call env call db) tt db' (role_call-Ended env call db) h

-- When the assignments in `user_roles` are to existing roles, and a call of the role service (a role
-- created, updated, deleted or assigned, or its system or model permissions replaced) succeeds for a
-- caller who is neither an emergency administrator nor holds a high-risk role, then every model, system
-- and namespace code that the roles grant a user afterwards they granted him before, or the caller has
-- it; the same users are in the security tier; and the assignments are still to existing roles.
pub role_call-IsBounded :
    (env : AccountEnv) (call : RoleCall) (db db' : AccessDb) (who : Principal)
    → Linked db.tables
    → role_call env call db ≡ (ok tt, db')
    → refreshed env db.tables ≡ ok who
    → can_manage_security_tier who ≡ false
    → IsBounded who db.tables db'.tables × Linked db'.tables
role_call-IsBounded env call db db' who linked h caller ordinary =
    let o = role_call-Outcome env call db db' h in
    let same : o.who ≡ who = ok-injective (sym o.caller ∙ caller) in
    (
      subst (λ q. IsBounded q db.tables db'.tables) same
          (Step-IsBounded o.who db.tables db'.tables
            (o.step (ap can_manage_security_tier same ∙ ordinary) linked)),
      o.linked linked,
    )

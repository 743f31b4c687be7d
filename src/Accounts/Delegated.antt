-- ===== src/Accounts/Delegated.antt =====
-- `Create` of internal/identity/service.go passes on no model or system permission that the caller
-- lacks.
use golang_cms.Prelude.{
  String, false, not, ◌&&◌, List, Option, none, some, ◌≡◌, refl, ◌∙◌, sym, ap, subst, arith, ◌==◌,
  length, sort_strings,
}
use golang_cms.AppError.{Result, ok, err, guard, ok-bind, ok-guard}
use golang_cms.Database.{before, within_tx}
use golang_cms.Identity.Types.{Principal}
use golang_cms.Identity.Defs.{can_delegate, can_manage_security_tier, is_empty}
use golang_cms.Identity.Delegate.{can_delegate_sound}
use golang_cms.Permission.Defs.{Tables, denied, require_system_permission}
use golang_cms.Accounts.Store.{AccountEnv, AccessDb, validation, refreshed, manager, write_audit}
use golang_cms.Accounts.Users.{User, get_user}
use golang_cms.Accounts.Grants.{no_roles}
use golang_cms.Accounts.Phone.{normalize_phone}
use golang_cms.Accounts.UserCalls.{
  CreateUserRequest, manager_of_both, lock_role_ids, create_sms_user, create_user, create_user_tx,
  listed, validate_create_user,
}
use golang_cms.Accounts.Ended.{Ended, before-Ended, within_tx-Ended, Ended-ok}
use golang_cms.Accounts.Created.{CreatedWithin, Assigned-CreatedWithin, create_sms_user-Assigned}
use golang_cms.Accounts.Escalation.Linked.{ok-injective}
use golang_cms.Accounts.Escalation.Caller.{
  refreshed-IsNormal, manager-refreshed, write_audit-tables,
}

-- What a successful creation adds, when its caller is ordinary.
record CreatedBy (env : AccountEnv) (t t' : Tables) : Type 0 where
  who : Principal
  caller : refreshed env t ≡ ok who
  within : can_manage_security_tier who ≡ false → CreatedWithin who t t'

manager_of_both-refreshed :
    (env : AccountEnv) (second : String) (t : Tables) (who : Principal)
    → manager_of_both env second t ≡ ok who
    → refreshed env t ≡ ok who
unfolding manager_of_both
manager_of_both-refreshed env second t who h = ok-bind (manager env "users.manage" t) _ h λ q e k.
    ok-bind (require_system_permission q second) _ k
      λ _ _ k2. manager-refreshed env "users.manage" t q e ∙ k2

create_user_tx-CreatedBy :
    (env : AccountEnv) (name phone masked : String) (ids : List String) (db db' : AccessDb)
    (answer : User)
    → create_user_tx env name (phone, masked) ids db ≡ ok (answer, db')
    → CreatedBy env db.tables db'.tables
unfolding create_user_tx
create_user_tx-CreatedBy env name phone masked ids db db' answer h =
    let t = db.tables in
    let roles = lock_role_ids t ids no_roles in
    ok-bind (manager_of_both env "roles.manage" t) _ h λ who e k.
      ok-guard (roles.count == length ids) validation _ k λ _ k2.
        ok-guard (not (roles.high_risk && not (can_manage_security_tier who))) denied _ k2 λ low k3.
          ok-guard (can_delegate who roles.permissions) denied _ k3 λ may k4.
            ok-bind (env.new_id "usr_") _ k4 λ id e5 k5.
              ok-bind (create_sms_user id name phone masked ids env.now t) _ k5 λ t1 e6 k6.
                ok-bind (write_audit env who "user_created" "user" id (record db { tables = t1 })) _
                  k6
                  λ db2 e7 k7. ok-bind (get_user db2.tables id) _ k7 λ result e8 k8.
                    let caller = manager_of_both-refreshed env "roles.manage" t who e in
                    let same : t1 ≡ db'.tables =
                      sym (write_audit-tables env who _ _ id (record db { tables = t1 }) db2 e7)
                      ∙ ap (λ x. x.1.tables) (ok-injective k8) in
                    subst (CreatedBy env t) same (record {
                      who = who;
                      caller = caller;
                      within = λ ordinary.
                          Assigned-CreatedWithin who t t1 id ids
                            (create_sms_user-Assigned id name phone masked ids env.now t t1 e6)
                            (ground arith)
                            (can_delegate_sound who roles.permissions
                              (refreshed-IsNormal env t who caller) may ordinary);
                    })

abbrev Made : AccountEnv → AccessDb → AccessDb → Type 0
Made env db db' = CreatedBy env db.tables db'.tables

create_user-CreatedBy :
    (env : AccountEnv) (r : CreateUserRequest) (db : AccessDb)
    → Ended (Made env db) db (create_user env r db)
unfolding create_user
create_user-CreatedBy env r db = go (normalize_phone r.phone)
  where
    go :
        (o : Option (String × String))
        → let ended : Result User × AccessDb = elim o [
          | none ↦ (err validation, db)
          | some number ↦
              before
                (guard (is_empty (validate_create_user r)) validation)
                (λ _.
                  within_tx env.commit
                    (create_user_tx env r.display_name number (sort_strings (listed r.role_ids))))
                db
        ] in
          Ended (Made env db) db ended
    go none = unfold Ended in refl
    go (some (phone, masked)) =
        let ids = sort_strings (listed r.role_ids) in
        before-Ended (Made env db) db (guard (is_empty (validate_create_user r)) validation)
          (λ _. within_tx env.commit (create_user_tx env r.display_name (phone, masked) ids))
          λ _.
            within_tx-Ended (Made env db) db env.commit
              (create_user_tx env r.display_name (phone, masked) ids)
              λ a d. create_user_tx-CreatedBy env r.display_name phone masked ids db d a

-- When a caller outside the security tier creates a user, then every model and system code that the
-- roles grant any user afterwards they granted him before, or the caller has it, and the same users are
-- in the security tier. Nothing is said of namespace codes.
pub create_user-CreatedWithin :
    (env : AccountEnv) (request : CreateUserRequest) (db db' : AccessDb) (answer : User)
    (who : Principal)
    → create_user env request db ≡ (ok answer, db')
    → refreshed env db.tables ≡ ok who
    → can_manage_security_tier who ≡ false
    → CreatedWithin who db.tables db'.tables
create_user-CreatedWithin env request db db' answer who h caller ordinary =
    let o =
      Ended-ok (Made env db) db (create_user env request db) answer db'
        (create_user-CreatedBy env request db) h in
    let same : o.who ≡ who = ok-injective (sym o.caller ∙ caller) in
    subst (λ q. CreatedWithin q db.tables db'.tables) same
      (o.within (ap can_manage_security_tier same ∙ ordinary))

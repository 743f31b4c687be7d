-- ===== src/Accounts/Sound.antt =====
-- What every call of the role service and of the user service keeps.
use golang_cms.Prelude.{
  String, ℕ, Bool, true, false, not, ◌&&◌, ◌||◌, List, [], ◌∷◌, Option, none, some, ◌≡◌, refl, ◌∙◌,
  sym, ap, subst, arith, ◌≤◌, ◌==◌, keep, length, put, Table, Assoc, Keyed,
}
use golang_cms.AppError.{failure, ok, ok-bind, ok-guard}
use golang_cms.Identity.Defs.{can_delegate, can_manage_security_tier}
use golang_cms.Permission.Defs.{Tables, UserRow, is_enabled, is_some, denied}
use golang_cms.Accounts.Store.{AccountEnv, AccessDb, validation, write_audit}
use golang_cms.Accounts.Users.{User, UserStatus, get_user}
use golang_cms.Accounts.Grants.{insert_pairs, no_roles}
use golang_cms.Accounts.UserCalls.{
  manager_of_both, lock_role_ids, create_sms_user, phone_conflict, create_user_tx, touch_row,
  touch_user, enabled_admins, set_status_tx, set_enabled, is_enabled_status,
}
use golang_cms.Accounts.Admins.{admins, set_status_tx-StatusSet, set_status_tx-admins, next_tables}
use golang_cms.Accounts.Escalation.Linked.{Linked, ok-injective, insert_pairs-linked}
use golang_cms.Accounts.Escalation.Caller.{write_audit-tables}
use golang_cms.Accounts.Escalation.Transactions.{Outcome}

-- The assignments are to existing roles, no user has two local credentials, and an enabled user is an
-- emergency administrator.
pub record IsSound (t : Tables) : Type 0 where
  pub linked : Linked t
  pub keyed : Keyed t.local_credentials
  pub least : 1 ≤ admins t

-- A change after which nobody is disabled.
pub record Grown (t t' : Tables) : Type 0 where
  pub linked : Linked t → Linked t'
  pub credentials : t'.local_credentials ≡ t.local_credentials
  pub enabled : (u : String) → is_enabled (t.users u) ≡ true → is_enabled (t'.users u) ≡ true

enabled_admins-le :
    (users users' : Table UserRow) (m : Assoc Bool)
    → ((u : String) → is_enabled (users u) ≡ true → is_enabled (users' u) ≡ true)
    → enabled_admins users m ≤ enabled_admins users' m
unfolding enabled_admins keep
enabled_admins-le users users' [] h = omega arith
enabled_admins-le users users' ((u, e) ∷ m) h =
    ground (arith, enabled_admins-le users users' m h, h u)

pub at_least : (t t' : Tables) → Grown t t' → IsSound t → IsSound t'
at_least t t' g s =
    let more = enabled_admins-le t.users t'.users t.local_credentials g.enabled in
    record {
      linked = g.linked s.linked;
      keyed = subst Keyed (sym g.credentials) s.keyed;
      least =
          subst (λ m. 1 ≤ enabled_admins t'.users m) (sym g.credentials)
            (omega (arith, more, s.least));
    }

touch-enabled : (now : ℕ) (o : Option UserRow) → is_enabled (touch_row now o) ≡ is_enabled o
touch-enabled now none = refl
touch-enabled now (some row) = refl

pub touch_user-Grown : (id : String) (now : ℕ) (t : Tables) → Grown t (touch_user id now t)
unfolding touch_user
touch_user-Grown id now t = record {
  linked = λ l. l;
  credentials = refl;
  enabled = λ u h. ground (arith, touch-enabled now (t.users u));
}

create_sms_user-Grown :
    (id name phone masked : String) (ids : List String) (now : ℕ) (t t' : Tables)
    → create_sms_user id name phone masked ids now t ≡ ok t'
    → Grown t t'
unfolding create_sms_user put
create_sms_user-Grown id name phone masked ids now t t' h =
    ok-guard (not (is_some (t.users id))) failure _ h λ fresh k.
      ok-guard (not (is_some (t.sms_credentials id) || is_some (t.phones phone))) phone_conflict _ k
        λ free k2.
          let user : UserRow = record {
            display_name = name;
            email = none;
            enabled = true;
            created_at = now;
            updated_at = now;
          } in
          let allowed : String → String → Bool =
            λ u r. is_some (put id user t.users u) && is_some (t.roles r) in
          ok-bind (insert_pairs allowed id ids t.user_roles) _ k2 λ rows e k3.
            subst (Grown t) (ok-injective k3) (record {
              linked = λ l.
                  insert_pairs-linked (λ r. is_some (t.roles r)) allowed id ids t.user_roles rows l
                    (λ u r h. ground arith) e;
              credentials = refl;
              enabled = λ u h. ground arith;
            })

pub Outcome-IsSound : (env : AccountEnv) (t t' : Tables) → Outcome env t t' → IsSound t → IsSound t'
Outcome-IsSound env t t' o s =
    at_least t t'
      (record {
        linked = o.linked;
        credentials = o.kept.credentials;
        enabled = λ u h. subst (λ users. is_enabled (users u) ≡ true) (sym o.kept.users) h;
      })
      s

next_tables-Linked :
    (id : String) (enable was : Bool) (now : ℕ) (t : Tables)
    → Linked t
    → Linked (next_tables id enable was now t)
unfolding set_enabled
next_tables-Linked id true true now t l = l
next_tables-Linked id true false now t l = l
next_tables-Linked id false true now t l = l
next_tables-Linked id false false now t l = l

next_tables-credentials :
    (id : String) (enable was : Bool) (now : ℕ) (t : Tables)
    → (next_tables id enable was now t).local_credentials ≡ t.local_credentials
unfolding set_enabled
next_tables-credentials id true true now t = refl
next_tables-credentials id true false now t = refl
next_tables-credentials id false true now t = refl
next_tables-credentials id false false now t = refl

module _ (env : AccountEnv) (db db' : AccessDb) (answer : User) (s : IsSound db.tables) where
  abbrev t : Tables
  t = db.tables

  pub moved :
      (t1 : Tables)
      → Grown t t1
      → (db2 : AccessDb) → db2.tables ≡ t1
      → db2 ≡ db'
      → IsSound db'.tables
  moved t1 g db2 e e2 =
      at_least t db'.tables (subst (Grown t) (sym e ∙ ap (λ (d : AccessDb). d.tables) e2) g) s

  pub set_status_tx-IsSound :
      (id : String) (status : UserStatus)
      → set_status_tx env id status db ≡ ok (answer, db')
      → IsSound db'.tables
  set_status_tx-IsSound id status h =
      let o = set_status_tx-StatusSet env id status db db' answer h in
      let enable = is_enabled_status status in
      let was = is_enabled_status o.user.status in
      record {
        linked = subst Linked (sym o.tables) (next_tables-Linked id enable was env.now t s.linked);
        keyed =
            subst (λ (d : Tables). Keyed d.local_credentials) (sym o.tables)
              (subst Keyed (sym (next_tables-credentials id enable was env.now t)) s.keyed);
        least = set_status_tx-admins env id status db db' answer h s.keyed s.least;
      }

  pub create_user_tx-IsSound :
      (name phone masked : String) (ids : List String)
      → create_user_tx env name (phone, masked) ids db ≡ ok (answer, db')
      → IsSound db'.tables
  unfolding create_user_tx
  create_user_tx-IsSound name phone masked ids h =
      let roles = lock_role_ids t ids no_roles in
      ok-bind (manager_of_both env "roles.manage" t) _ h λ who e k.
        ok-guard (roles.count == length ids) validation _ k λ _ k2.
          ok-guard (not (roles.high_risk && not (can_manage_security_tier who))) denied _ k2 λ _ k3.
            ok-guard (can_delegate who roles.permissions) denied _ k3 λ _ k4.
              ok-bind (env.new_id "usr_") _ k4 λ id e5 k5.
                ok-bind (create_sms_user id name phone masked ids env.now t) _ k5 λ t1 e6 k6.
                  ok-bind (write_audit env who "user_created" "user" id (record db { tables = t1 }))
                    _ k6
                    λ db2 e7 k7. ok-bind (get_user db2.tables id) _ k7 λ result e8 k8.
                      moved t1 (create_sms_user-Grown id name phone masked ids env.now t t1 e6) db2
                        (write_audit-tables env who _ _ id (record db { tables = t1 }) db2 e7)
                        (ap (λ x. x.1) (ok-injective k8))

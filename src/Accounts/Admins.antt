-- ===== src/Accounts/Admins.antt =====
-- The enabled emergency administrators: `SetStatus` leaves one.
use golang_cms.Prelude.{
  String, ℕ, Bool, true, false, not, ◌&&◌, [], ◌∷◌, Option, none, some, ◌≡◌, refl, ◌∙◌, sym, ap,
  subst, arith, eq_iff, ◌=s=◌, if◌then◌else◌, ◌+◌, ◌≤◌, leb, keep, Table, Assoc, Keyed, lookup,
}
use golang_cms.AppError.{ok, err, ok-bind, ok-guard}
use golang_cms.Audit.{append_to}
use golang_cms.Identity.Types.{Principal}
use golang_cms.Permission.Defs.{Tables, UserRow, is_enabled, is_true, is_some, denied}
use golang_cms.Accounts.Store.{AccountEnv, AccessDb, write_audit}
use golang_cms.Accounts.Users.{User, UserStatus, get_user, user_of, user_not_found}
use golang_cms.Accounts.UserCalls.{
  manager_of_both, set_row, set_enabled, enabled_admins, is_enabled_status, same_truth, last_admin,
  set_status_tx, revoke_sessions,
}
use golang_cms.Accounts.Escalation.Linked.{ok-injective}
use golang_cms.Accounts.Escalation.Caller.{write_audit-tables}

abbrev pub admins : Tables → ℕ
admins t = enabled_admins t.users t.local_credentials

abbrev one_if : Bool → ℕ
one_if true = 1
one_if false = 0

module _ (users : Table UserRow) (id : String) (now : ℕ) where
  abbrev changed : Bool → Table UserRow
  changed enabled j = if id =s= j then set_row enabled now (users j) else users j

  disabled-row : (o : Option UserRow) → is_enabled (set_row false now o) ≡ false
  disabled-row none = refl
  disabled-row (some row) = refl

  enabled-row : (o : Option UserRow) → is_enabled o ≡ true → is_enabled (set_row true now o) ≡ true
  enabled-row none h = h
  enabled-row (some row) h = refl

  -- To disable a user takes one from the count if he is an enabled administrator.
  admins-disabled :
      (m : Assoc Bool)
      → Keyed m
      → enabled_admins (changed false) m + one_if (is_true (lookup id m) && is_enabled (users id))
        ≡ enabled_admins users m
  unfolding enabled_admins keep lookup
  admins-disabled [] k = refl
  admins-disabled ((u, e) ∷ m) k =
      ground (arith, admins-disabled m k.1, disabled-row (users u), eq_iff u id, eq_iff id u)

  admins-enabled : (m : Assoc Bool) → enabled_admins users m ≤ enabled_admins (changed true) m
  unfolding enabled_admins keep
  admins-enabled [] = omega arith
  admins-enabled ((u, e) ∷ m) = ground (arith, admins-enabled m, enabled-row (users u))

-- What `Get` says of the two flags of a user.
pub record IsRead (t : Tables) (id : String) (user : User) : Type 0 where
  pub known : is_some (t.users id) ≡ true
  pub emergency : user.emergency_admin ≡ is_true (lookup id t.local_credentials)
  pub enabled : is_enabled_status user.status ≡ is_enabled (t.users id)

status_of_enabled :
    (b : Bool) → is_enabled_status (if b then UserStatus.enabled else UserStatus.disabled) ≡ b
status_of_enabled true = refl
status_of_enabled false = refl

pub get_user-IsRead :
    (t : Tables) (id : String) (user : User) → get_user t id ≡ ok user → IsRead t id user
unfolding get_user user_of
get_user-IsRead t id user h = go (t.users id) refl h
  where
    go :
        (o : Option UserRow)
        → t.users id ≡ o
        → elim o [ none ↦ err user_not_found | some row ↦ ok (user_of t id row) ] ≡ ok user
        → IsRead t id user
    go none e k = absurd (cc)
    go (some row) e k = subst (IsRead t id) (ok-injective k) (record {
      known = ap is_some e;
      emergency = refl;
      enabled = status_of_enabled row.enabled ∙ sym (ap is_enabled e);
    })

abbrev pub next_tables : String → Bool → Bool → ℕ → Tables → Tables
next_tables id enable was now t = if same_truth enable was then t else set_enabled id enable now t

admins-next_tables :
    (t : Tables) (id : String) (user : User) (enable : Bool) (now : ℕ)
    → Keyed t.local_credentials
    → IsRead t id user
    → not (
        (not enable && (is_enabled_status user.status && user.emergency_admin)) && leb (admins t) 1)
      ≡ true
    → 1 ≤ admins t
    → 1 ≤ admins (next_tables id enable (is_enabled_status user.status) now t)
unfolding set_enabled
admins-next_tables t id user true now keyed read may least =
    ground (arith, admins-enabled t.users id now t.local_credentials)
admins-next_tables t id user false now keyed read may least =
    ground (
      arith,
      admins-disabled t.users id now t.local_credentials keyed,
      read.emergency,
      read.enabled,
    )

-- What a successful `SetStatus` found and did.
pub record StatusSet (env : AccountEnv) (id : String) (status : UserStatus) (db db' : AccessDb)
    : Type 0 where
  pub who : Principal
  pub user : User
  pub caller : manager_of_both env "roles.view" db.tables ≡ ok who
  pub found : get_user db.tables id ≡ ok user
  pub equals : (user.emergency_admin && not who.emergency_admin) ≡ false
  pub may :
      not (
        (not (is_enabled_status status) && (is_enabled_status user.status && user.emergency_admin))
        && leb (admins db.tables) 1)
      ≡ true
  pub tables :
      db'.tables
      ≡ next_tables id (is_enabled_status status) (is_enabled_status user.status) env.now db.tables
  pub sessions :
      db'.sessions
      ≡ (if is_enabled_status status then db.sessions else revoke_sessions id env.now db.sessions)

write_audit-sessions :
    (env : AccountEnv) (who : Principal) (action kind id : String) (db db' : AccessDb)
    → write_audit env who action kind id db ≡ ok db'
    → db'.sessions ≡ db.sessions
unfolding write_audit
write_audit-sessions env who action kind id db db' h = ok-bind (env.new_id "evt_") _ h λ event e k.
    ok-bind (append_to env.audit_check _ db.audit_events) _ k
      λ log e2 k2. sym (ap (λ (d : AccessDb). d.sessions) (ok-injective k2))

pub set_status_tx-StatusSet :
    (env : AccountEnv) (id : String) (status : UserStatus) (db db' : AccessDb) (answer : User)
    → set_status_tx env id status db ≡ ok (answer, db')
    → StatusSet env id status db db'
unfolding set_status_tx
set_status_tx-StatusSet env id status db db' answer h =
    let t = db.tables in
    let enable = is_enabled_status status in
    ok-bind (manager_of_both env "roles.view" t) _ h λ who e k.
      ok-bind (get_user t id) _ k λ user e2 k2.
        ok-guard (not (user.emergency_admin && not who.emergency_admin)) denied _ k2 λ equals k3.
          let was = is_enabled_status user.status in
          ok-guard (not ((not enable && (was && user.emergency_admin)) && leb (admins t) 1))
            last_admin _ k3
            λ may k4.
              let next : AccessDb = record db {
                tables = next_tables id enable was env.now t;
                sessions = if enable then db.sessions else revoke_sessions id env.now db.sessions;
              } in
              ok-bind (write_audit env who "user_status_updated" "user" id next) _ k4 λ db2 e5 k5.
                ok-bind (get_user db2.tables id) _ k5 λ result e6 k6.
                  subst (StatusSet env id status db) (ap (λ x. x.1) (ok-injective k6)) (record {
                    who = who;
                    user = user;
                    caller = e;
                    found = e2;
                    equals = ground arith;
                    may = may;
                    tables = write_audit-tables env who _ _ id next db2 e5;
                    sessions = write_audit-sessions env who _ _ id next db2 e5;
                  })

pub set_status_tx-admins :
    (env : AccountEnv) (id : String) (status : UserStatus) (db db' : AccessDb) (answer : User)
    → set_status_tx env id status db ≡ ok (answer, db')
    → Keyed db.tables.local_credentials
    → 1 ≤ admins db.tables
    → 1 ≤ admins db'.tables
set_status_tx-admins env id status db db' answer h keyed least =
    let s = set_status_tx-StatusSet env id status db db' answer h in
    subst (λ t. 1 ≤ admins t) (sym s.tables)
      (admins-next_tables db.tables id s.user (is_enabled_status status) env.now keyed
        (get_user-IsRead db.tables id s.user s.found) s.may least)

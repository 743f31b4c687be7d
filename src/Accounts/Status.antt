-- ===== src/Accounts/Status.antt =====
-- What `SetStatus` of internal/identity/service.go does to the users and to their sessions.
use golang_cms.Prelude.{
  String, ℕ, Bool, true, false, not, ◌||◌, List, [], ◌∷◌, Option, none, some, ◌≡◌, ◌≢◌, refl, ◌∙◌,
  ap, arith, eq_iff, ◌=s=◌, if◌then◌else◌, all,
}
use golang_cms.AppError.{ok}
use golang_cms.Database.{within_tx}
use golang_cms.Identity.Types.{Principal}
use golang_cms.Permission.Defs.{Tables, UserRow, SessionRow, is_enabled, is_some}
use golang_cms.Accounts.Store.{AccountEnv, AccessDb}
use golang_cms.Accounts.Users.{User, UserStatus, get_user}
use golang_cms.Accounts.UserCalls.{
  manager_of_both, set_row, set_enabled, is_enabled_status, set_status, set_status_tx,
  revoke_sessions,
}
use golang_cms.Accounts.Ended.{within_tx-Ended, Ended-ok}
use golang_cms.Accounts.Admins.{get_user-IsRead, StatusSet, set_status_tx-StatusSet, next_tables}

-- The session is another user's or revoked.
abbrev pub is_closed : String → SessionRow → Bool
is_closed id s = not (s.user_id =s= id) || is_some s.revoked_at

revoke_sessions-closed :
    (id : String) (now : ℕ) (rows : List SessionRow)
    → all (is_closed id) (revoke_sessions id now rows) ≡ true
unfolding revoke_sessions all
revoke_sessions-closed id now [] = refl
revoke_sessions-closed id now (s ∷ rows) = ground (arith, revoke_sessions-closed id now rows)

set_row-enabled :
    (b : Bool) (now : ℕ) (o : Option UserRow) → is_some o ≡ true → is_enabled (set_row b now o) ≡ b
set_row-enabled b now none h = absurd (cc)
set_row-enabled b now (some row) h = refl

next_tables-enabled :
    (id : String) (enable was : Bool) (now : ℕ) (t : Tables)
    → is_some (t.users id) ≡ true
    → was ≡ is_enabled (t.users id)
    → is_enabled ((next_tables id enable was now t).users id) ≡ enable
unfolding set_enabled
next_tables-enabled id enable was now t known read =
    ground (arith, set_row-enabled enable now (t.users id), eq_iff id id)

next_tables-others :
    (id u : String) (enable was : Bool) (now : ℕ) (t : Tables)
    → id ≢ u
    → (next_tables id enable was now t).users u ≡ t.users u
unfolding set_enabled
next_tables-others id u true true now t ne = refl
next_tables-others id u false false now t ne = refl
next_tables-others id u true false now t ne = ground (arith, eq_iff id u)
next_tables-others id u false true now t ne = ground (arith, eq_iff id u)

-- The caller, the users and the sessions behind a successful `SetStatus`.
pub record StatusResult (env : AccountEnv) (id : String) (status : UserStatus) (db db' : AccessDb)
    : Type 0 where
  pub who : Principal
  pub user : User
  pub caller : manager_of_both env "roles.view" db.tables ≡ ok who
  pub found : get_user db.tables id ≡ ok user
  pub equals : user.emergency_admin ≡ true → who.emergency_admin ≡ true
  pub enabled : is_enabled (db'.tables.users id) ≡ is_enabled_status status
  pub others : (u : String) → id ≢ u → db'.tables.users u ≡ db.tables.users u
  pub sessions : is_enabled_status status ≡ false → all (is_closed id) db'.sessions ≡ true

StatusSet-StatusResult :
    (env : AccountEnv) (id : String) (status : UserStatus) (db db' : AccessDb)
    → StatusSet env id status db db'
    → StatusResult env id status db db'
StatusSet-StatusResult env id status db db' s =
    let enable = is_enabled_status status in
    let was = is_enabled_status s.user.status in
    let read = get_user-IsRead db.tables id s.user s.found in
    record {
      who = s.who;
      user = s.user;
      caller = s.caller;
      found = s.found;
      equals = λ h. ground (arith, s.equals);
      enabled =
          ap (λ (t : Tables). is_enabled (t.users id)) s.tables
          ∙ next_tables-enabled id enable was env.now db.tables read.known read.enabled;
      others = λ u ne.
          ap (λ (t : Tables). t.users u) s.tables
          ∙ next_tables-others id u enable was env.now db.tables ne;
      sessions = λ h.
          ap (all (is_closed id)) (
            s.sessions
            ∙ ap (λ b. if b then db.sessions else revoke_sessions id env.now db.sessions) h)
          ∙ revoke_sessions-closed id env.now db.sessions;
    }

-- When `SetStatus` succeeds, the user was found, only an emergency administrator has changed one, the
-- user is enabled or disabled as asked and every other user is as before, and if he was to be disabled
-- all his sessions are revoked.
pub set_status-StatusResult :
    (env : AccountEnv) (id : String) (status : UserStatus) (db db' : AccessDb) (answer : User)
    → set_status env id (some status) db ≡ (ok answer, db')
    → StatusResult env id status db db'
unfolding set_status
set_status-StatusResult env id status db db' answer h =
    Ended-ok (StatusResult env id status db) db
      (within_tx env.commit (set_status_tx env id status) db) answer db'
      (within_tx-Ended (StatusResult env id status db) db env.commit (set_status_tx env id status)
        λ a d k.
          StatusSet-StatusResult env id status db d
            (set_status_tx-StatusSet env id status db d a k))
      h

-- ===== src/Accounts/Escalation/Runs.antt =====
-- Sequences of calls of the role service by ordinary callers.
use golang_cms.Prelude.{
  String, Bool, true, false, not, ◌&&◌, ◌||◌, List, [], ◌∷◌, ◌≡◌, inl, inr, refl, ◌∙◌, sym, subst,
  arith, Bool-cases,
}
use golang_cms.AppError.{Result, ok, err}
use golang_cms.Identity.Types.{Principal}
use golang_cms.Identity.Defs.{can_manage_security_tier}
use golang_cms.Permission.Defs.{Tables}
use golang_cms.Permission.Grants.{role_grants, in_tier}
use golang_cms.Accounts.Store.{AccountEnv, AccessDb, refreshed}
use golang_cms.Accounts.Roles.{RoleCall, role_call}
use golang_cms.Accounts.Escalation.{IsBounded, system_grants, config_grants}
use golang_cms.Accounts.Escalation.Linked.{Linked}
use golang_cms.Accounts.Escalation.Calls.{role_call-failed, role_call-Outcome, role_call-IsBounded}
use golang_cms.Accounts.Escalation.Granted.{IsGranted, refreshed-IsGranted}

-- The caller of the next call is not in the security tier, or he cannot be determined.
unfoldable pub is_ordinary : AccountEnv → Tables → Bool
is_ordinary env t = elim (refreshed env t) [
  | err e ↦ true
  | ok who ↦ not (can_manage_security_tier who)
]

abbrev pub after : AccountEnv × RoleCall → AccessDb → AccessDb
after (env, call) db = (role_call env call db).1

-- The calls, one behind the other, whether they fail or succeed.
unfoldable pub run_calls : List (AccountEnv × RoleCall) → AccessDb → AccessDb
run_calls [] db = db
run_calls (c ∷ calls) db = run_calls calls (after c db)

-- Each caller is ordinary when his turn comes.
unfoldable pub all_ordinary : List (AccountEnv × RoleCall) → AccessDb → Bool
all_ordinary [] db = true
all_ordinary (c ∷ calls) db = is_ordinary c.0 db.tables && all_ordinary calls (after c db)

-- What anybody is granted in the second tables, somebody was in the first.
pub record IsOld (t t' : Tables) : Type 0 where
  pub models :
      (u m c : String) → role_grants t' u m c ≡ true → (v : String) × (role_grants t v m c ≡ true)
  pub system :
      (u c : String) → system_grants t' u c ≡ true → (v : String) × (system_grants t v c ≡ true)
  pub configs :
      (u n c : String)
      → config_grants t' u n c ≡ true
      → (v : String) × (config_grants t v n c ≡ true)
  pub tier : (u : String) → in_tier t' u ≡ in_tier t u

IsOld-refl : (t : Tables) → IsOld t t
IsOld-refl t = record {
  models = λ u m c h. (u, h);
  system = λ u c h. (u, h);
  configs = λ u n c h. (u, h);
  tier = λ u. refl;
}

IsOld-trans : (t t1 t2 : Tables) → IsOld t t1 → IsOld t1 t2 → IsOld t t2
IsOld-trans t t1 t2 a b = record {
  models = λ u m c h. let (v, k) = b.models u m c h in a.models v m c k;
  system = λ u c h. let (v, k) = b.system u c h in a.system v c k;
  configs = λ u n c h. let (v, k) = b.configs u n c h in a.configs v n c k;
  tier = λ u. b.tier u ∙ a.tier u;
}

-- One of two users.
either_of :
    (p : String → Bool) (u v : String) (mine : Bool)
    → (p u || mine) ≡ true
    → (mine ≡ true → p v ≡ true)
    → (w : String) × (p w ≡ true)
either_of p u v mine h k = elim (Bool-cases (p u)) [
  | inl e ↦ (u, e)
  | inr e ↦ (v, k (ground arith))
]

IsBounded-IsOld :
    (user : String) (who : Principal) (t t' : Tables)
    → IsGranted t user who
    → IsBounded who t t'
    → IsOld t t'
IsBounded-IsOld user who t t' g b = record {
  models =
      λ u m c h. either_of (λ v. role_grants t v m c) u user _ (b.models u m c h) (g.models m c);
  system = λ u c h. either_of (λ v. system_grants t v c) u user _ (b.system u c h) (g.system c);
  configs = λ u n c h.
      either_of (λ v. config_grants t v n c) u user _ (b.configs u n c h) (g.configs n c);
  tier = b.tier;
}

ordinary_caller :
    (env : AccountEnv) (t : Tables) (who : Principal)
    → is_ordinary env t ≡ true
    → refreshed env t ≡ ok who
    → can_manage_security_tier who ≡ false
unfolding is_ordinary
ordinary_caller env t who h e =
    let k : not (can_manage_security_tier who) ≡ true = rw (e, is_ordinary) at h in ground arith

after-IsOld :
    (env : AccountEnv) (call : RoleCall) (db : AccessDb)
    → Linked db.tables
    → is_ordinary env db.tables ≡ true
    → IsOld db.tables (after (env, call) db).tables × Linked (after (env, call) db).tables
after-IsOld env call db linked h = go (role_call env call db) refl
  where
    go :
        (r : Result (Unit {0}) × AccessDb)
        → role_call env call db ≡ r
        → IsOld db.tables r.1.tables × Linked r.1.tables
    go (err e, db') k =
        subst (λ (d : AccessDb). IsOld db.tables d.tables × Linked d.tables)
          (sym (role_call-failed env call db db' e k)) (IsOld-refl db.tables, linked)
    go (ok tt, db') k =
        let o = role_call-Outcome env call db db' k in
        let ordinary = ordinary_caller env db.tables o.who h o.caller in
        let (bounded, linked') =
          role_call-IsBounded env call db db' o.who linked k o.caller ordinary in
        (
          IsBounded-IsOld env.principal.user_id o.who db.tables db'.tables
              (refreshed-IsGranted env db.tables o.who o.caller ordinary) bounded,
          linked',
        )

-- When the assignments in `user_roles` are to existing roles, then after any sequence of calls of the
-- role service, failed ones among them, of which no caller is in the security tier at his turn, every
-- model, system and namespace code that the roles grant some user, they granted some user at the
-- start; and exactly the same users are in the security tier.
pub run_calls-IsOld :
    (calls : List (AccountEnv × RoleCall)) (db : AccessDb)
    → Linked db.tables
    → all_ordinary calls db ≡ true
    → IsOld db.tables (run_calls calls db).tables
unfolding run_calls all_ordinary
run_calls-IsOld [] db linked h = IsOld-refl db.tables
run_calls-IsOld ((env, call) ∷ calls) db linked h =
    let (old, linked') = after-IsOld env call db linked (ground arith) in
    IsOld-trans db.tables (after (env, call) db).tables _ old
      (run_calls-IsOld calls (after (env, call) db) linked' (ground arith))

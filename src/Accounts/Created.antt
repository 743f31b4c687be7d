-- ===== src/Accounts/Created.antt =====
-- `Create` of internal/identity/service.go: what a created user is granted.
use golang_cms.Prelude.{
  String, ℕ, Bool, true, false, not, ◌&&◌, ◌||◌, List, [], ◌∷◌, Option, none, some, ◌≡◌, refl, ◌∙◌,
  sym, ap, subst, arith, eq_iff, ◌=s=◌, any, keep, contains, sort_strings, contains-append,
  contains-sort_strings, put, Bool-cases, inl, inr,
}
use golang_cms.AppError.{failure, ok, ok-bind, ok-guard}
use golang_cms.Identity.Types.{Principal}
use golang_cms.Identity.Normalize.{holds}
use golang_cms.Identity.Delegate.{IsWithin}
use golang_cms.Permission.Defs.{
  Tables, RoleRow, UserRow, ScopeRow, column, role_ids, is_some, is_high, is_high_risk,
  has_high_risk,
}
use golang_cms.Permission.Grants.{grants_scope, holds-append, role_grants, in_tier}
use golang_cms.Accounts.Grants.{LockedRoleSelection, no_roles, sort_rows, insert_pairs}
use golang_cms.Accounts.UserCalls.{
  rows_as_grants, add_locked, lock_role_ids, create_sms_user, phone_conflict,
}
use golang_cms.Accounts.Rows.{any-sort_rows, any-keep, insert_pairs-rows}
use golang_cms.Accounts.Escalation.{has_role, system_grants, any-role_ids, same_implied, or_false}
use golang_cms.Accounts.Escalation.Assigned.{of_known, low_or_absent}
use golang_cms.Accounts.Escalation.Linked.{ok-injective}

holds-rows_as_grants :
    (m c : String) (rows : List ScopeRow)
    → holds (rows_as_grants rows) m c ≡ any (λ r. r.scope =s= m && r.permission =s= c) rows
unfolding rows_as_grants holds any contains
holds-rows_as_grants m c [] = refl
holds-rows_as_grants m c (r ∷ rows) = ground (arith, holds-rows_as_grants m c rows)

locked-models :
    (t : Tables) (id m c : String)
    → holds (rows_as_grants (sort_rows (keep (λ r. r.role_id =s= id) t.role_model_permissions))) m c
      ≡ grants_scope t.role_model_permissions id m c
unfolding grants_scope
locked-models t id m c =
    let p : ScopeRow → Bool = λ r. r.scope =s= m && r.permission =s= c in
    let mine : List ScopeRow = keep (λ r. r.role_id =s= id) t.role_model_permissions in
    holds-rows_as_grants m c (sort_rows mine)
    ∙ (any-sort_rows p mine ∙ any-keep p (λ r. r.role_id =s= id) t.role_model_permissions)

-- A test of a selection that a known role adds to.
module _ (t : Tables) (p : LockedRoleSelection → Bool) (q : String → RoleRow → Bool)
    (step : (s : LockedRoleSelection) (id : String) (row : RoleRow)
      → p (add_locked t id (some row) s) ≡ (p s || q id row)) where
  kept_by :
      (o : Option RoleRow) (id : String) (s : LockedRoleSelection)
      → p s ≡ true
      → p (add_locked t id o s) ≡ true
  kept_by none id s h = h
  kept_by (some row) id s h = ground (arith, step s id row)

  lock_role_ids-kept :
      (ids : List String) (s : LockedRoleSelection) → p s ≡ true → p (lock_role_ids t ids s) ≡ true
  unfolding lock_role_ids
  lock_role_ids-kept [] s h = h
  lock_role_ids-kept (id ∷ ids) s h =
      lock_role_ids-kept ids (add_locked t id (t.roles id) s) (kept_by (t.roles id) id s h)

  lock_role_ids-locked :
      (ids : List String) (s : LockedRoleSelection) (id : String) (row : RoleRow)
      → contains id ids ≡ true
      → t.roles id ≡ some row
      → q id row ≡ true
      → p (lock_role_ids t ids s) ≡ true
  unfolding lock_role_ids contains
  lock_role_ids-locked [] s id row c e h = absurd (cc)
  lock_role_ids-locked (j ∷ ids) s id row c e h = elim (Bool-cases (j =s= id)) [
    | inl same ↦
        let added : p (add_locked t id (t.roles id) s) ≡ true =
          ap (λ o. p (add_locked t id o s)) e ∙ (ground (arith, step s id row)) in
        let here : id ≡ j = ground (arith, eq_iff j id) in
        lock_role_ids-kept ids (add_locked t j (t.roles j) s)
          (subst (λ j. p (add_locked t j (t.roles j) s) ≡ true) here added)
    | inr other ↦ lock_role_ids-locked ids (add_locked t j (t.roles j) s) id row (ground arith) e h
  ]

-- What creating a user may add for an ordinary caller.
pub record CreatedWithin (who : Principal) (t t' : Tables) : Type 0 where
  pub models :
      (u m c : String)
      → role_grants t' u m c ≡ true
      → (role_grants t u m c || holds who.model_permissions m c) ≡ true
  pub system :
      (u c : String)
      → system_grants t' u c ≡ true
      → (system_grants t u c || contains c who.system_permissions) ≡ true
  pub tier : (u : String) → in_tier t' u ≡ in_tier t u

-- The roles of everybody, with those of the new user.
pub record Assigned (id : String) (ids : List String) (t t' : Tables) : Type 0 where
  roles : t'.roles ≡ t.roles
  models : t'.role_model_permissions ≡ t.role_model_permissions
  system : t'.role_system_permissions ≡ t.role_system_permissions
  credentials : t'.local_credentials ≡ t.local_credentials
  rows :
      (u r : String)
      → contains r (column u t'.user_roles)
        ≡ (contains r (column u t.user_roles) || (id =s= u && contains r ids))

pub create_sms_user-Assigned :
    (id name phone masked : String) (ids : List String) (now : ℕ) (t t' : Tables)
    → create_sms_user id name phone masked ids now t ≡ ok t'
    → Assigned id ids t t'
unfolding create_sms_user
create_sms_user-Assigned id name phone masked ids now t t' h =
    let user : UserRow = record {
      display_name = name;
      email = none;
      enabled = true;
      created_at = now;
      updated_at = now;
    } in
    let allowed : String → String → Bool =
      λ u r. is_some (put id user t.users u) && is_some (t.roles r) in
    ok-guard (not (is_some (t.users id))) failure _ h λ fresh k.
      ok-guard (not (is_some (t.sms_credentials id) || is_some (t.phones phone))) phone_conflict _ k
        λ free k2. ok-bind (insert_pairs allowed id ids t.user_roles) _ k2 λ rows e k3.
          subst (Assigned id ids t) (ok-injective k3) (record {
            roles = refl;
            models = refl;
            system = refl;
            credentials = refl;
            rows = insert_pairs-rows allowed id ids t.user_roles rows e;
          })

-- What the locked roles grant, the selection has.
module _ (t : Tables) (ids : List String) (r : String) (row : RoleRow)
    (wanted : contains r ids ≡ true) (known : t.roles r ≡ some row) where
  abbrev selection : LockedRoleSelection
  selection = lock_role_ids t ids no_roles

  selection-high : is_high row.kind ≡ true → selection.high_risk ≡ true
  selection-high h =
      lock_role_ids-locked t (λ s. s.high_risk) (λ id row. is_high row.kind) (λ s id row. refl) ids
        no_roles r row wanted known h

  selection-models :
      (m c : String)
      → grants_scope t.role_model_permissions r m c ≡ true
      → holds selection.permissions.models m c ≡ true
  selection-models m c h =
      lock_role_ids-locked t (λ s. holds s.permissions.models m c)
        (λ id row. grants_scope t.role_model_permissions id m c)
        (λ s id row.
          holds-append s.permissions.models
            (rows_as_grants (sort_rows (keep (λ r. r.role_id =s= id) t.role_model_permissions))) m c
          ∙ ap (λ b. holds s.permissions.models m c || b) (locked-models t id m c))
        ids no_roles r row wanted known h

  selection-system :
      (c : String)
      → contains c (column r t.role_system_permissions) ≡ true
      → contains c selection.permissions.system ≡ true
  selection-system c h =
      lock_role_ids-locked t (λ s. contains c s.permissions.system)
        (λ id row. contains c (column id t.role_system_permissions))
        (λ s id row.
          contains-append c s.permissions.system
            (sort_strings (column id t.role_system_permissions))
          ∙ ap (λ b. contains c s.permissions.system || b)
              (contains-sort_strings c (column id t.role_system_permissions)))
        ids no_roles r row wanted known h

module _ (who : Principal) (t t' : Tables) (id : String) (ids : List String)
    (a : Assigned id ids t t') (low : (lock_role_ids t ids no_roles).high_risk ≡ false)
    (within : IsWithin who (lock_role_ids t ids no_roles).permissions) where
  known_same : (r : String) → is_some (t'.roles r) ≡ is_some (t.roles r)
  known_same r = ap (λ f. is_some (f r)) a.roles

  low_role : (r : String) → contains r ids ≡ true → is_high_risk (t.roles r) ≡ false
  low_role r h =
      low_or_absent (t.roles r) λ row e high. sym low ∙ selection-high t ids r row h e high

  high_same :
      (u r : String)
      → (has_role t' u r && is_high_risk (t'.roles r))
        ≡ (has_role t u r && is_high_risk (t.roles r))
  unfolding has_role
  high_same u r =
      ground (arith, a.rows u r, known_same r, low_role r, ap (λ f. is_high_risk (f r)) a.roles)

  tables-high : (u : String) → has_high_risk t' (role_ids t' u) ≡ has_high_risk t (role_ids t u)
  unfolding has_high_risk
  tables-high u =
      let p : String → Bool = λ r. is_high_risk (t.roles r) in
      let p' : String → Bool = λ r. is_high_risk (t'.roles r) in
      same_implied (any p' (role_ids t' u)) (any p (role_ids t u))
        (λ h.
          or_false _ (any-role_ids p p' t t' u false (λ r k j. ground (arith, high_same u r)) h))
        (λ h.
          or_false _ (any-role_ids p' p t' t u false (λ r k j. ground (arith, high_same u r)) h))

  pub Assigned-CreatedWithin : CreatedWithin who t t'
  unfolding role_grants system_grants in_tier has_role
  Assigned-CreatedWithin = record {
    models = λ u m c.
        any-role_ids (λ r. grants_scope t.role_model_permissions r m c)
          (λ r. grants_scope t'.role_model_permissions r m c) t t' u
          (holds who.model_permissions m c)
          λ r k g. ground (
            arith,
            a.rows u r,
            known_same r,
            ap (λ rows. grants_scope rows r m c) a.models,
            (λ (w : contains r ids ≡ true) (o : is_some (t.roles r) ≡ true)
                  (h : grants_scope t.role_model_permissions r m c ≡ true).
                of_known (t.roles r) o
                  λ row e. within.models m c (selection-models t ids r row w e m c h)),
          );
    system = λ u c.
        any-role_ids (λ r. contains c (column r t.role_system_permissions))
          (λ r. contains c (column r t'.role_system_permissions)) t t' u
          (contains c who.system_permissions)
          λ r k g. ground (
            arith,
            a.rows u r,
            known_same r,
            ap (λ rows. contains c (column r rows)) a.system,
            (λ (w : contains r ids ≡ true) (o : is_some (t.roles r) ≡ true)
                  (h : contains c (column r t.role_system_permissions) ≡ true).
                of_known (t.roles r) o
                  λ row e. within.system c (selection-system t ids r row w e c h)),
          );
    tier = λ u. rw (tables-high u, a.credentials) refl;
  }

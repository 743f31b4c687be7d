-- ===== src/Accounts/Escalation/Steps.antt =====
-- Each change of the tables by the repository, as a step that grants nothing new.
use golang_cms.Prelude.{
  Option, String, Bool, true, false, not, ◌&&◌, ◌||◌, List, none, some, ◌≡◌, refl, ◌∙◌, ap, subst,
  arith, eq_iff, ◌=s=◌, if◌then◌else◌, contains, put, remove,
}
use golang_cms.AppError.{ok, ok-bind, ok-guard}
use golang_cms.Identity.Types.{Principal, ScopedPermissions}
use golang_cms.Identity.Normalize.{holds}
use golang_cms.Permission.Defs.{Tables, RoleRow, column, is_some, is_high, is_high_risk}
use golang_cms.Permission.Grants.{grants_scope}
use golang_cms.Accounts.Grants.{
  key_conflict, map_row, create_role, update_row, delete_role, replace_user_roles,
  replace_system_permissions, replace_model_permissions, replace_config_permissions, insert_scopes,
  insert_pairs, without_role, without_first,
}
use golang_cms.Accounts.Rows.{
  insert_scopes-replaced, insert_pairs-replaced, grants_scope-without_role, column-without_first,
  column-without_second,
}
use golang_cms.Accounts.Escalation.{Step, has_role}
use golang_cms.Accounts.Escalation.Linked.{Linked, ok-injective, map_row-known}

map_row-kind :
    (f : RoleRow → RoleRow) (o : Option RoleRow)
    → ((row : RoleRow) → (f row).kind ≡ row.kind)
    → is_high_risk (map_row f o) ≡ is_high_risk o
map_row-kind f none same = refl
map_row-kind f (some row) same = ap is_high (same row)

module _ (who : Principal) where
  pub Step-refl : (t : Tables) → Step who t t
  Step-refl t = record {
    models = λ u r m c h k. ground arith;
    system = λ u r c h k. ground arith;
    configs = λ u r n c h k. ground arith;
    high = λ u r. refl;
    credentials = refl;
  }

  pub Step-trans : (t t1 t2 : Tables) → Step who t t1 → Step who t1 t2 → Step who t t2
  Step-trans t t1 t2 a b = record {
    models = λ u r m c h k. ground (arith, b.models u r m c h k, a.models u r m c);
    system = λ u r c h k. ground (arith, b.system u r c h k, a.system u r c);
    configs = λ u r n c h k. ground (arith, b.configs u r n c h k, a.configs u r n c);
    high = λ u r. b.high u r ∙ a.high u r;
    credentials = b.credentials ∙ a.credentials;
  }

  pub replace_config_permissions-Step :
      (t t' : Tables) (id : String) (values : List ScopedPermissions)
      → replace_config_permissions id values t ≡ ok t'
      → ((n c : String)
          → holds values n c ≡ true
          → holds who.config_namespace_permissions n c ≡ true)
      → Step who t t'
  unfolding replace_config_permissions has_role
  replace_config_permissions-Step t t' id values h within =
      ok-bind
        (insert_scopes (is_some (t.roles id)) id values
          (without_role id t.role_config_namespace_permissions))
        _ h
        λ rows e k. subst (Step who t) (ok-injective k) (record {
          models = λ u r m c h k. ground arith;
          system = λ u r c h k. ground arith;
          configs = λ u r n c h k. ground (
            arith,
            within n c,
            insert_scopes-replaced (is_some (t.roles id)) id values
                t.role_config_namespace_permissions rows e r n c,
          );
          high = λ u r. refl;
          credentials = refl;
        })

  pub replace_model_permissions-Step :
      (t t' : Tables) (id : String) (values : List ScopedPermissions)
      → replace_model_permissions id values t ≡ ok t'
      → ((m c : String) → holds values m c ≡ true → holds who.model_permissions m c ≡ true)
      → Step who t t'
  unfolding replace_model_permissions has_role
  replace_model_permissions-Step t t' id values h within =
      ok-bind
        (insert_scopes (is_some (t.roles id)) id values (without_role id t.role_model_permissions))
        _ h
        λ rows e k. subst (Step who t) (ok-injective k) (record {
          models = λ u r m c h k. ground (
            arith,
            within m c,
            insert_scopes-replaced (is_some (t.roles id)) id values t.role_model_permissions rows e
                r m c,
          );
          system = λ u r c h k. ground arith;
          configs = λ u r n c h k. ground arith;
          high = λ u r. refl;
          credentials = refl;
        })

  pub replace_system_permissions-Step :
      (t t' : Tables) (id : String) (values : List String)
      → replace_system_permissions id values t ≡ ok t'
      → ((c : String) → contains c values ≡ true → contains c who.system_permissions ≡ true)
      → Step who t t'
  unfolding replace_system_permissions has_role
  replace_system_permissions-Step t t' id values h within =
      ok-bind
        (insert_pairs (λ r c. is_some (t.roles r)) id values
          (without_first id t.role_system_permissions))
        _ h
        λ rows e k. subst (Step who t) (ok-injective k) (record {
          models = λ u r m c h k. ground arith;
          system = λ u r c h k. ground (
            arith,
            within c,
            insert_pairs-replaced (λ r c. is_some (t.roles r)) id values t.role_system_permissions
                rows e r c,
          );
          configs = λ u r n c h k. ground arith;
          high = λ u r. refl;
          credentials = refl;
        })

  pub update_row-Step :
      (id : String) (f : RoleRow → RoleRow) (t : Tables)
      → ((row : RoleRow) → (f row).kind ≡ row.kind)
      → Step who t (update_row id f t)
  unfolding has_role update_row
  update_row-Step id f t same = record {
    models = λ u r m c h k. ground (arith, map_row-known f (t.roles r));
    system = λ u r c h k. ground (arith, map_row-known f (t.roles r));
    configs = λ u r n c h k. ground (arith, map_row-known f (t.roles r));
    high = λ u r. ground (arith, map_row-known f (t.roles r), map_row-kind f (t.roles r) same);
    credentials = refl;
  }

  -- A new role belongs to nobody.
  pub create_role-Step :
      (id : String) (row : RoleRow) (t t' : Tables)
      → create_role id row t ≡ ok t'
      → Linked t
      → Step who t t'
  unfolding create_role has_role put
  create_role-Step id row t t' h linked =
      ok-guard (not (is_some (t.roles id) || is_some (t.role_keys row.key))) key_conflict _ h
        λ fresh k. subst (Step who t) (ok-injective k) (record {
          models = λ u r m c j g. ground (arith, linked u r, eq_iff id r);
          system = λ u r c j g. ground (arith, linked u r, eq_iff id r);
          configs = λ u r n c j g. ground (arith, linked u r, eq_iff id r);
          high = λ u r. ground (arith, linked u r, eq_iff id r);
          credentials = refl;
        })

  pub delete_role-Step :
      (id : String) (row : RoleRow) (t : Tables)
      → t.roles id ≡ some row
      → is_high row.kind ≡ false
      → Step who t (delete_role id t)
  unfolding delete_role has_role remove
  delete_role-Step id row t found custom =
      let low : is_high_risk (t.roles id) ≡ false = rw found custom in
      record {
        models = λ u r m c h k. ground (
          arith,
          column-without_second id u r t.user_roles,
          grants_scope-without_role id r m c t.role_model_permissions,
        );
        system = λ u r c h k. ground (
          arith,
          column-without_second id u r t.user_roles,
          column-without_first id r c t.role_system_permissions,
        );
        configs = λ u r n c h k. ground (
          arith,
          column-without_second id u r t.user_roles,
          grants_scope-without_role id r n c t.role_config_namespace_permissions,
        );
        high = λ u r.
            ground
              (arith, low, column-without_second id u r t.user_roles, eq_iff r id, eq_iff id r);
        credentials = refl;
      }

  pub replace_user_roles-Step :
      (user : String) (ids : List String) (t t' : Tables)
      → replace_user_roles user ids t ≡ ok t'
      → ((r : String)
          → contains r (column user t.user_roles) ≡ true
          → is_high_risk (t.roles r) ≡ false)
      → ((r : String) → contains r ids ≡ true → is_high_risk (t.roles r) ≡ false)
      → ((r m c : String)
          → contains r ids ≡ true
          → is_some (t.roles r) ≡ true
          → grants_scope t.role_model_permissions r m c ≡ true
          → holds who.model_permissions m c ≡ true)
      → ((r c : String)
          → contains r ids ≡ true
          → is_some (t.roles r) ≡ true
          → contains c (column r t.role_system_permissions) ≡ true
          → contains c who.system_permissions ≡ true)
      → ((r n c : String)
          → contains r ids ≡ true
          → is_some (t.roles r) ≡ true
          → grants_scope t.role_config_namespace_permissions r n c ≡ true
          → holds who.config_namespace_permissions n c ≡ true)
      → Step who t t'
  unfolding replace_user_roles has_role
  replace_user_roles-Step user ids t t' h low_before low_after models system configs =
      let allowed : String → String → Bool = λ u r. is_some (t.users u) && is_some (t.roles r) in
      ok-bind (insert_pairs allowed user ids (without_first user t.user_roles)) _ h λ rows e k.
        let now : (u r : String)
            → contains r (column u rows)
              ≡ (if u =s= user then contains r ids else contains r (column u t.user_roles)) =
          insert_pairs-replaced allowed user ids t.user_roles rows e in
        subst (Step who t) (ok-injective k) (record {
          models = λ u r m c h k. ground (arith, now u r, models r m c);
          system = λ u r c h k. ground (arith, now u r, system r c);
          configs = λ u r n c h k. ground (arith, now u r, configs r n c);
          high = λ u r. ground (arith, now u r, low_before r, low_after r, eq_iff u user);
          credentials = refl;
        })

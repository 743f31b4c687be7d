-- ===== src/Accounts/Escalation/Linked.antt =====
-- The foreign key from `user_roles` to `roles`, and that every change of the tables keeps it.
use golang_cms.Prelude.{
  String, Bool, true, not, ◌&&◌, ◌||◌, List, [], ◌∷◌, ◌++◌, Option, none, some, ◌≡◌, refl, subst,
  arith, eq_iff, contains, put, remove,
}
use golang_cms.AppError.{ok, ok-bind, ok-guard}
use golang_cms.Identity.Types.{ScopedPermissions}
use golang_cms.Permission.Defs.{Tables, RoleRow, column, is_some}
use golang_cms.Accounts.Grants.{
  key_conflict, map_row, create_role, update_row, delete_role, replace_user_roles,
  replace_system_permissions, replace_model_permissions, replace_config_permissions, insert_scopes,
  insert_pairs, without_role, without_first,
}
use golang_cms.Accounts.Rows.{insert_pairs-rows, insert_pairs-replaced, column-without_second}

-- The foreign key of `user_roles`.
abbrev pub Linked : Tables → Type 0
Linked t = (u r : String) → contains r (column u t.user_roles) ≡ true → is_some (t.roles r) ≡ true

pub ok-injective : {A : Type 0} {a b : A} → ok a ≡ ok b → a ≡ b
ok-injective e = cc

pub map_row-known : (f : RoleRow → RoleRow) (o : Option RoleRow) → is_some (map_row f o) ≡ is_some o
map_row-known f none = refl
map_row-known f (some row) = refl

insert_pairs-allowed :
    (allowed : String → String → Bool) (k : String) (vs : List String)
    (rows rows' : List (String × String))
    → insert_pairs allowed k vs rows ≡ ok rows'
    → (v : String) → contains v vs ≡ true
    → allowed k v ≡ true
unfolding insert_pairs contains
insert_pairs-allowed allowed k [] rows rows' h v c = cc
insert_pairs-allowed allowed k (x ∷ xs) rows rows' h v c =
    let rest : insert_pairs allowed k xs (rows ++ (k, x) ∷ []) ≡ ok rows' = ground arith in
    ground (arith, insert_pairs-allowed allowed k xs (rows ++ (k, x) ∷ []) rows' rest v, eq_iff x v)

-- The assignments stay linked when those of new pairs are.
pub insert_pairs-linked :
    (roles : String → Bool) (allowed : String → String → Bool) (k : String) (vs : List String)
    (rows rows' : List (String × String))
    → ((u r : String) → contains r (column u rows) ≡ true → roles r ≡ true)
    → ((u r : String) → allowed u r ≡ true → roles r ≡ true)
    → insert_pairs allowed k vs rows ≡ ok rows'
    → (u r : String) → contains r (column u rows') ≡ true
    → roles r ≡ true
insert_pairs-linked roles allowed k vs rows rows' l a h u r c = ground (
  arith,
  l u r,
  a k r,
  insert_pairs-rows allowed k vs rows rows' h u r,
  insert_pairs-allowed allowed k vs rows rows' h r,
)

module _ (t t' : Tables) (linked : Linked t) where
  pub replace_config_permissions-Linked :
      (id : String) (values : List ScopedPermissions)
      → replace_config_permissions id values t ≡ ok t'
      → Linked t'
  unfolding replace_config_permissions
  replace_config_permissions-Linked id values h =
      ok-bind
        (insert_scopes (is_some (t.roles id)) id values
          (without_role id t.role_config_namespace_permissions))
        _ h λ rows e k. subst Linked (ok-injective k) linked

  pub replace_model_permissions-Linked :
      (id : String) (values : List ScopedPermissions)
      → replace_model_permissions id values t ≡ ok t'
      → Linked t'
  unfolding replace_model_permissions
  replace_model_permissions-Linked id values h =
      ok-bind
        (insert_scopes (is_some (t.roles id)) id values (without_role id t.role_model_permissions))
        _ h λ rows e k. subst Linked (ok-injective k) linked

  pub replace_system_permissions-Linked :
      (id : String) (values : List String)
      → replace_system_permissions id values t ≡ ok t'
      → Linked t'
  unfolding replace_system_permissions
  replace_system_permissions-Linked id values h =
      ok-bind
        (insert_pairs (λ r c. is_some (t.roles r)) id values
          (without_first id t.role_system_permissions))
        _ h λ rows e k. subst Linked (ok-injective k) linked

  pub create_role-Linked : (id : String) (row : RoleRow) → create_role id row t ≡ ok t' → Linked t'
  unfolding create_role put
  create_role-Linked id row h =
      ok-guard (not (is_some (t.roles id) || is_some (t.role_keys row.key))) key_conflict _ h
        λ fresh k. subst Linked (ok-injective k) (λ u r j. ground (arith, linked u r j))

  pub replace_user_roles-Linked :
      (user : String) (ids : List String) → replace_user_roles user ids t ≡ ok t' → Linked t'
  unfolding replace_user_roles
  replace_user_roles-Linked user ids h =
      let allowed : String → String → Bool = λ u r. is_some (t.users u) && is_some (t.roles r) in
      ok-bind (insert_pairs allowed user ids (without_first user t.user_roles)) _ h λ rows e k.
        subst Linked (ok-injective k) λ u r j. ground (
          arith,
          linked u r,
          insert_pairs-replaced allowed user ids t.user_roles rows e u r,
          insert_pairs-allowed allowed user ids (without_first user t.user_roles) rows e r,
        )

module _ (t : Tables) (linked : Linked t) where
  pub update_row-Linked : (id : String) (f : RoleRow → RoleRow) → Linked (update_row id f t)
  unfolding update_row
  update_row-Linked id f u r h = ground (arith, linked u r h, map_row-known f (t.roles r))

  pub delete_role-Linked : (id : String) → Linked (delete_role id t)
  unfolding delete_role remove
  delete_role-Linked id u r h =
      ground
        (arith, linked u r, column-without_second id u r t.user_roles, eq_iff r id, eq_iff id r)

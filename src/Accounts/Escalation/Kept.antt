-- ===== src/Accounts/Escalation/Kept.antt =====
-- The role service touches neither the users nor their local credentials.
use golang_cms.Prelude.{String, List, ◌≡◌, refl, ◌∙◌, subst, not, ◌&&◌, ◌||◌}
use golang_cms.AppError.{ok, ok-bind, ok-guard}
use golang_cms.Identity.Types.{ScopedPermissions}
use golang_cms.Permission.Defs.{Tables, RoleRow, is_some}
use golang_cms.Accounts.Grants.{
  key_conflict, create_role, update_row, delete_role, replace_user_roles,
  replace_system_permissions, replace_model_permissions, replace_config_permissions, insert_scopes,
  insert_pairs, without_role, without_first,
}
use golang_cms.Accounts.Escalation.Linked.{ok-injective}

pub record Kept (t t' : Tables) : Type 0 where
  pub users : t'.users ≡ t.users
  pub credentials : t'.local_credentials ≡ t.local_credentials

abbrev pub kept : (t : Tables) → Kept t t
kept t = record { users = refl; credentials = refl }

pub Kept-trans : (t t1 t2 : Tables) → Kept t t1 → Kept t1 t2 → Kept t t2
Kept-trans t t1 t2 a b = record {
  users = b.users ∙ a.users;
  credentials = b.credentials ∙ a.credentials;
}

pub update_row-Kept :
    (id : String) (f : RoleRow → RoleRow) (t : Tables) → Kept t (update_row id f t)
unfolding update_row
update_row-Kept id f t = record { users = refl; credentials = refl }

pub delete_role-Kept : (id : String) (t : Tables) → Kept t (delete_role id t)
unfolding delete_role
delete_role-Kept id t = record { users = refl; credentials = refl }

module _ (t t' : Tables) where
  pub create_role-Kept : (id : String) (row : RoleRow) → create_role id row t ≡ ok t' → Kept t t'
  unfolding create_role
  create_role-Kept id row h =
      ok-guard (not (is_some (t.roles id) || is_some (t.role_keys row.key))) key_conflict _ h
        λ fresh k. subst (Kept t) (ok-injective k) (record { users = refl; credentials = refl })

  pub replace_config_permissions-Kept :
      (id : String) (values : List ScopedPermissions)
      → replace_config_permissions id values t ≡ ok t'
      → Kept t t'
  unfolding replace_config_permissions
  replace_config_permissions-Kept id values h =
      ok-bind
        (insert_scopes (is_some (t.roles id)) id values
          (without_role id t.role_config_namespace_permissions))
        _ h
        λ rows e k. subst (Kept t) (ok-injective k) (record { users = refl; credentials = refl })

  pub replace_model_permissions-Kept :
      (id : String) (values : List ScopedPermissions)
      → replace_model_permissions id values t ≡ ok t'
      → Kept t t'
  unfolding replace_model_permissions
  replace_model_permissions-Kept id values h =
      ok-bind
        (insert_scopes (is_some (t.roles id)) id values (without_role id t.role_model_permissions))
        _ h
        λ rows e k. subst (Kept t) (ok-injective k) (record { users = refl; credentials = refl })

  pub replace_system_permissions-Kept :
      (id : String) (values : List String)
      → replace_system_permissions id values t ≡ ok t'
      → Kept t t'
  unfolding replace_system_permissions
  replace_system_permissions-Kept id values h =
      ok-bind
        (insert_pairs (λ r c. is_some (t.roles r)) id values
          (without_first id t.role_system_permissions))
        _ h
        λ rows e k. subst (Kept t) (ok-injective k) (record { users = refl; credentials = refl })

  pub replace_user_roles-Kept :
      (user : String) (ids : List String) → replace_user_roles user ids t ≡ ok t' → Kept t t'
  unfolding replace_user_roles
  replace_user_roles-Kept user ids h =
      ok-bind
        (insert_pairs (λ u r. is_some (t.users u) && is_some (t.roles r)) user ids
          (without_first user t.user_roles))
        _ h
        λ rows e k. subst (Kept t) (ok-injective k) (record { users = refl; credentials = refl })

-- ===== src/Accounts/Escalation/Granted.antt =====
-- An ordinary caller has nothing but what his roles grant.
use golang_cms.Prelude.{
  String, Bool, true, false, ◌||◌, List, [], Option, none, some, ◌≡◌, ◌⊎◌, inl, inr, refl, ◌∙◌, sym,
  ap, subst, arith, any, contains, Bool-cases, lookup,
}
use golang_cms.AppError.{app, internal, Result, ok, err, ◌>>=◌, ok-bind}
use golang_cms.Identity.Types.{
  Principal, PermissionSet, system_permission_codes, model_permission_codes,
  config_namespace_permission_codes,
}
use golang_cms.Identity.Defs.{can_manage_security_tier, new_principal}
use golang_cms.Identity.Normalize.{holds, holds-normalize, contains-valid_unique_sorted}
use golang_cms.Permission.Defs.{
  Tables, role_ids, is_enabled, is_true, has_high_risk, permissions, current_principal, role_system,
  role_scopes, ordinary_permissions, tier_permissions, no_permissions, emergency_permissions,
  namespaces_of,
}
use golang_cms.Permission.Grants.{
  role_grants, in_tier, permissions-ordinary, permissions-tier, holds-role_scopes,
  contains-role_system,
}
use golang_cms.Accounts.Store.{AccountEnv, refreshed}
use golang_cms.Accounts.Escalation.{system_grants, config_grants}
use golang_cms.Accounts.Escalation.Linked.{ok-injective}

-- What an ordinary principal has, the roles of the user grant.
pub record IsGranted (t : Tables) (user : String) (who : Principal) : Type 0 where
  pub models :
      (m c : String) → holds who.model_permissions m c ≡ true → role_grants t user m c ≡ true
  pub system :
      (c : String) → contains c who.system_permissions ≡ true → system_grants t user c ≡ true
  pub configs :
      (n c : String)
      → holds who.config_namespace_permissions n c ≡ true
      → config_grants t user n c ≡ true

-- The flags of a set that puts a principal into the security tier.
tier_permissions-flags :
    (env : AccountEnv) (e h : Bool) (g : PermissionSet)
    → tier_permissions env.providers e h ≡ ok g
    → (g.emergency_admin || g.high_risk_role) ≡ (e || h)
unfolding tier_permissions emergency_permissions
tier_permissions-flags env e h g k = go env.providers.active_models k
  where
    go :
        (o : Option (Result (List String)))
        → elim o [
          | none ↦ err (app internal "internal_error")
          | some models ↦ do
            model_ids ← models
            namespace_ids ← namespaces_of env.providers
            ok (emergency_permissions model_ids namespace_ids e h)
        ]
          ≡ ok g
        → (g.emergency_admin || g.high_risk_role) ≡ (e || h)
    go none k = absurd (cc)
    go (some models) k = ok-bind models _ k λ ids _ k2.
        ok-bind (namespaces_of env.providers) _ k2 λ ns _ k3.
          sym (ap (λ (p : PermissionSet). p.emergency_admin || p.high_risk_role) (ok-injective k3))

-- A set outside the tier is empty, or the union of what the roles grant.
permissions-low :
    (env : AccountEnv) (t : Tables) (user : String) (g : PermissionSet)
    → permissions t env.providers user ≡ ok g
    → (g.emergency_admin || g.high_risk_role) ≡ false
    → (no_permissions ≡ g) ⊎ (ordinary_permissions t (role_ids t user) ≡ g)
permissions-low env t user g h low = elim (Bool-cases (is_enabled (t.users user))) [
  | inr off ↦
      let nothing : permissions t env.providers user ≡ ok no_permissions =
        unfold permissions in rw off refl in
      inl (ok-injective (sym nothing ∙ h))
  | inl on ↦ elim (Bool-cases (in_tier t user)) [
    | inr out ↦ inr (ok-injective (sym (permissions-ordinary t env.providers user on out) ∙ h))
    | inl high ↦
        let e = is_true (lookup user t.local_credentials) in
        let r = has_high_risk t (role_ids t user) in
        let flags =
          tier_permissions-flags env e r g
            (sym (permissions-tier t env.providers user on high) ∙ h) in
        let clash : true ≡ false = (unfold in_tier in (sym high ∙ sym flags ∙ low)) in absurd (cc)
  ]
]

nothing_held : (m c : String) → holds [] m c ≡ false
unfolding holds any
nothing_held m c = refl

nothing_listed : (c : String) → contains c [] ≡ false
unfolding contains
nothing_listed c = refl

no_permissions-IsGranted :
    (env : AccountEnv) (t : Tables)
    → let p = env.principal in
      IsGranted t p.user_id
        (new_principal p.user_id p.display_name p.email p.auth_method no_permissions)
unfolding new_principal
no_permissions-IsGranted env t = record {
  models = λ m c h. ground (arith, holds-normalize model_permission_codes [] m c, nothing_held m c);
  system = λ c h.
      ground (arith, contains-valid_unique_sorted c [] system_permission_codes, nothing_listed c);
  configs = λ n c h.
      ground (arith, holds-normalize config_namespace_permission_codes [] n c, nothing_held n c);
}

ordinary_permissions-IsGranted :
    (env : AccountEnv) (t : Tables)
    → let p = env.principal in
      IsGranted t p.user_id (
        new_principal p.user_id p.display_name p.email p.auth_method
          (ordinary_permissions t (role_ids t p.user_id)))
unfolding new_principal ordinary_permissions role_grants system_grants config_grants
ordinary_permissions-IsGranted env t =
    let user = env.principal.user_id in
    let roles = role_ids t user in
    record {
      models = λ m c h. ground (
        arith,
        holds-normalize model_permission_codes
            (role_scopes model_permission_codes t.role_model_permissions roles) m c,
        holds-role_scopes model_permission_codes t.role_model_permissions m c roles,
      );
      system = λ c h. ground (
        arith,
        contains-valid_unique_sorted c
            (role_system system_permission_codes t.role_system_permissions roles)
            system_permission_codes,
        contains-role_system system_permission_codes t.role_system_permissions c roles,
      );
      configs = λ n c h. ground (
        arith,
        holds-normalize config_namespace_permission_codes
            (role_scopes config_namespace_permission_codes t.role_config_namespace_permissions
              roles)
            n c,
        holds-role_scopes config_namespace_permission_codes t.role_config_namespace_permissions n c
            roles,
      );
    }

pub refreshed-IsGranted :
    (env : AccountEnv) (t : Tables) (who : Principal)
    → refreshed env t ≡ ok who
    → can_manage_security_tier who ≡ false
    → IsGranted t env.principal.user_id who
unfolding refreshed current_principal can_manage_security_tier
refreshed-IsGranted env t who h ordinary =
    let p = env.principal in
    ok-bind (permissions t env.providers p.user_id) _ h λ g e k.
      let made : PermissionSet → Principal =
        new_principal p.user_id p.display_name p.email p.auth_method in
      let low : (g.emergency_admin || g.high_risk_role) ≡ false =
        unfold new_principal in
        (ap (λ (q : Principal). q.emergency_admin || q.high_risk_role) (ok-injective k)
          ∙ ordinary) in
      subst (IsGranted t p.user_id) (ok-injective k)
        (elim (permissions-low env t p.user_id g e low) [
          | inl same ↦
              subst (λ g. IsGranted t p.user_id (made g)) same (no_permissions-IsGranted env t)
          | inr same ↦
              subst (λ g. IsGranted t p.user_id (made g)) same
                (ordinary_permissions-IsGranted env t)
        ])

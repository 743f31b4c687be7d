-- ===== src/Identity/Delegate.antt =====
-- `CanDelegate` of internal/identity/principal.go: nobody passes on what he does not hold.
use golang_cms.Prelude.{
  String, Bool, true, false, List, [], ◌∷◌, Option, ◌≡◌, refl, ◌∙◌, sym, ◌⊎◌, inl, inr, ◌↔◌, arith,
  eq_iff, if◌then◌else◌, contains, any, all, Distinct, Bool-cases, eq_refl,
}
use golang_cms.Identity.Types.{
  ScopedPermissions, PermissionSet, Principal, AuthMethod, model_permission_codes,
  config_namespace_permission_codes,
}
use golang_cms.Identity.Defs.{
  scopes, last_grant, covers, can_delegate, can_manage_security_tier, new_principal,
}
use golang_cms.Identity.Normalize.{holds, normalize-Distinct}

holds_absent :
    (gs : List ScopedPermissions) (m c : String)
    → contains m (scopes gs) ≡ false
    → holds gs m c ≡ false
unfolding holds any contains
holds_absent [] m c h = refl
holds_absent (g ∷ gs) m c h = ground (arith, holds_absent gs m c)

contains-last_grant :
    (gs : List ScopedPermissions) (m c : String) (found : List String)
    → Distinct (scopes gs)
    → contains c (last_grant gs m found)
      ≡ (if contains m (scopes gs) then holds gs m c else contains c found)
unfolding last_grant holds any contains
contains-last_grant [] m c found d = refl
contains-last_grant (g ∷ gs) m c found d = ground (
  arith,
  contains-last_grant gs m c found d.1,
  contains-last_grant gs m c g.permissions d.1,
  holds_absent gs m c,
  eq_iff g.scope_id m,
)

-- With one grant for a scope, the last one is what `holds` finds.
last_grant-holds :
    (gs : List ScopedPermissions) (m c : String)
    → Distinct (scopes gs)
    → contains c (last_grant gs m []) ≡ holds gs m c
unfolding contains
last_grant-holds gs m c d = ground (arith, contains-last_grant gs m c [] d, holds_absent gs m c)

-- Every code of a list passes the test.
all_codes :
    (p : String → Bool) (xs : List String) (c : String)
    → all p xs ≡ true
    → contains c xs ≡ true
    → p c ≡ true
unfolding all contains
all_codes p [] c h k = cc
all_codes p (x ∷ xs) c h k = ground (arith, all_codes p xs c, eq_iff x c)

all_of_codes :
    (p : String → Bool) (xs : List String)
    → ((c : String) → contains c xs ≡ true → p c ≡ true)
    → all p xs ≡ true
unfolding all contains
all_of_codes p [] h = refl
all_of_codes p (x ∷ xs) h =
    ground (arith, h x, eq_refl x, all_of_codes p xs (λ c k. h c (ground arith)))

covers-holds :
    (own wanted : List ScopedPermissions)
    → covers own wanted ≡ true
    → (m c : String) → holds wanted m c ≡ true
    → contains c (last_grant own m []) ≡ true
unfolding covers holds any all
covers-holds own [] h m c k = cc
covers-holds own (g ∷ gs) h m c k = ground (
  arith,
  covers-holds own gs,
  eq_iff g.scope_id m,
  all_codes (λ code. contains code (last_grant own g.scope_id [])) g.permissions c,
  covers-holds own gs (ground arith) m c,
)

covers_of_holds :
    (own wanted : List ScopedPermissions)
    → ((m c : String) → holds wanted m c ≡ true → contains c (last_grant own m []) ≡ true)
    → covers own wanted ≡ true
unfolding covers holds any all
covers_of_holds own [] h = refl
covers_of_holds own (g ∷ gs) h = ground (
  arith,
  covers_of_holds own gs (λ m c k. h m c (ground arith)),
  all_of_codes (λ code. contains code (last_grant own g.scope_id [])) g.permissions
      (λ c k. h g.scope_id c (ground (arith, eq_refl g.scope_id))),
)

-- A principal has every permission of the set.
pub record IsWithin (p : Principal) (wanted : PermissionSet) : Type 0 where
  pub system :
      (c : String) → contains c wanted.system ≡ true → contains c p.system_permissions ≡ true
  pub models :
      (m c : String) → holds wanted.models m c ≡ true → holds p.model_permissions m c ≡ true
  pub configs :
      (n c : String)
      → holds wanted.config_namespace_permissions n c ≡ true
      → holds p.config_namespace_permissions n c ≡ true

-- Every scope of a principal has one grant.
pub record IsNormal (p : Principal) : Type 0 where
  pub models : Distinct (scopes p.model_permissions)
  pub configs : Distinct (scopes p.config_namespace_permissions)

pub new_principal-IsNormal :
    (id name : String) (email : Option String) (method : AuthMethod) (granted : PermissionSet)
    → IsNormal (new_principal id name email method granted)
unfolding new_principal
new_principal-IsNormal id name email method granted = record {
  models = normalize-Distinct model_permission_codes granted.models;
  configs =
      normalize-Distinct config_namespace_permission_codes granted.config_namespace_permissions;
}

pub can_delegate_sound :
    (p : Principal) (wanted : PermissionSet)
    → IsNormal p
    → can_delegate p wanted ≡ true
    → can_manage_security_tier p ≡ false
    → IsWithin p wanted
unfolding can_delegate
can_delegate_sound p wanted n h t = record {
  system = λ c k.
      all_codes (λ code. contains code p.system_permissions) wanted.system c (ground arith) k;
  models = λ m c k.
      sym (last_grant-holds p.model_permissions m c n.models)
      ∙ covers-holds p.model_permissions wanted.models (ground arith) m c k;
  configs = λ m c k.
      sym (last_grant-holds p.config_namespace_permissions m c n.configs)
      ∙ covers-holds p.config_namespace_permissions wanted.config_namespace_permissions
          (ground arith) m c k;
}

can_delegate_complete :
    (p : Principal) (wanted : PermissionSet)
    → IsNormal p
    → IsWithin p wanted
    → can_delegate p wanted ≡ true
unfolding can_delegate
can_delegate_complete p wanted n w = ground (
  arith,
  all_of_codes (λ code. contains code p.system_permissions) wanted.system w.system,
  covers_of_holds p.model_permissions wanted.models
      (λ m c k. last_grant-holds p.model_permissions m c n.models ∙ w.models m c k),
  covers_of_holds p.config_namespace_permissions wanted.config_namespace_permissions
      (λ m c k. last_grant-holds p.config_namespace_permissions m c n.configs ∙ w.configs m c k),
)

can_delegate_tier :
    (p : Principal) (wanted : PermissionSet)
    → can_manage_security_tier p ≡ true
    → can_delegate p wanted ≡ true
unfolding can_delegate
can_delegate_tier p wanted t = ground arith

-- A principal made by `NewPrincipal` may delegate a permission set exactly when he manages the security tier (an emergency administrator, or the holder of a high-risk role) or himself holds every system, model and namespace code in the set.
pub can_delegate-new_principal :
    (id name : String) (email : Option String) (method : AuthMethod)
    (granted wanted : PermissionSet)
    → let p = new_principal id name email method granted in
      (can_delegate p wanted ≡ true) ↔ ((can_manage_security_tier p ≡ true) ⊎ IsWithin p wanted)
can_delegate-new_principal id name email method granted wanted =
    let p = new_principal id name email method granted in
    let n = new_principal-IsNormal id name email method granted in
    (
      λ h. elim (Bool-cases (can_manage_security_tier p)) [
        | inl t ↦ inl t
        | inr f ↦ inr (can_delegate_sound p wanted n h f)
      ],
      elim [ inl t ↦ can_delegate_tier p wanted t | inr w ↦ can_delegate_complete p wanted n w ],
    )

-- ===== src/Accounts/Escalation.antt =====
-- What a change of the roles may add to what the users are granted.
pub mod Linked
pub mod Kept
pub mod Steps
pub mod Caller
pub mod Assigned
pub mod Transactions
pub mod Written
pub mod Calls
pub mod Granted
pub mod Runs
use golang_cms.Prelude.{
  String, Bool, true, false, ◌&&◌, ◌||◌, List, ◌≡◌, refl, ◌∙◌, sym, ap, arith, any, contains,
  contains-sort_strings, keep,
}
use golang_cms.Identity.Types.{Principal}
use golang_cms.Identity.Normalize.{holds}
use golang_cms.Permission.Defs.{
  Tables, column, role_ids, is_some, is_true, is_high_risk, has_high_risk,
}
use golang_cms.Permission.Grants.{contains-keep, grants_scope, role_grants, in_tier}
use golang_cms.Accounts.Selection.{any_of, any-witness}

-- The user has the role, and it exists.
unfoldable pub has_role : Tables → String → String → Bool
has_role t user r = contains r (column user t.user_roles) && is_some (t.roles r)

-- Some role of the user grants the code.
unfoldable pub system_grants : Tables → String → String → Bool
system_grants t user c =
    any (λ r. contains c (column r t.role_system_permissions)) (role_ids t user)

unfoldable pub config_grants : Tables → String → String → String → Bool
config_grants t user n c =
    any (λ r. grants_scope t.role_config_namespace_permissions r n c) (role_ids t user)

-- The second tables grant a user through a role only what the first do, or the caller has.
pub record Step (who : Principal) (t t' : Tables) : Type 0 where
  pub models :
      (u r m c : String)
      → has_role t' u r ≡ true
      → grants_scope t'.role_model_permissions r m c ≡ true
      → ((has_role t u r && grants_scope t.role_model_permissions r m c)
          || holds who.model_permissions m c)
        ≡ true
  pub system :
      (u r c : String)
      → has_role t' u r ≡ true
      → contains c (column r t'.role_system_permissions) ≡ true
      → ((has_role t u r && contains c (column r t.role_system_permissions))
          || contains c who.system_permissions)
        ≡ true
  pub configs :
      (u r n c : String)
      → has_role t' u r ≡ true
      → grants_scope t'.role_config_namespace_permissions r n c ≡ true
      → ((has_role t u r && grants_scope t.role_config_namespace_permissions r n c)
          || holds who.config_namespace_permissions n c)
        ≡ true
  pub high :
      (u r : String)
      → (has_role t' u r && is_high_risk (t'.roles r))
        ≡ (has_role t u r && is_high_risk (t.roles r))
  pub credentials : t'.local_credentials ≡ t.local_credentials

-- The same of what a user is granted through all his roles; and the security tier is left alone.
pub record IsBounded (who : Principal) (t t' : Tables) : Type 0 where
  pub models :
      (u m c : String)
      → role_grants t' u m c ≡ true
      → (role_grants t u m c || holds who.model_permissions m c) ≡ true
  pub system :
      (u c : String)
      → system_grants t' u c ≡ true
      → (system_grants t u c || contains c who.system_permissions) ≡ true
  pub configs :
      (u n c : String)
      → config_grants t' u n c ≡ true
      → (config_grants t u n c || holds who.config_namespace_permissions n c) ≡ true
  pub tier : (u : String) → in_tier t' u ≡ in_tier t u

pub contains-role_ids : (t : Tables) (u r : String) → contains r (role_ids t u) ≡ has_role t u r
unfolding role_ids has_role
contains-role_ids t u r = ground (
  arith,
  contains-sort_strings r (keep (λ r. is_some (t.roles r)) (column u t.user_roles)),
  contains-keep (λ r. is_some (t.roles r)) r (column u t.user_roles),
)

pub any-role_ids :
    (p p' : String → Bool) (t t' : Tables) (u : String) (extra : Bool)
    → ((r : String)
        → has_role t' u r ≡ true
        → p' r ≡ true
        → ((has_role t u r && p r) || extra) ≡ true)
    → any p' (role_ids t' u) ≡ true
    → (any p (role_ids t u) || extra) ≡ true
any-role_ids p p' t t' u extra step h =
    let (r, there, k) = any-witness p' (role_ids t' u) h in
    let found = step r (sym (contains-role_ids t' u r) ∙ there) k in
    ground (arith, found, any_of p r (role_ids t u), contains-role_ids t u r)

pub same_implied : (a b : Bool) → (a ≡ true → b ≡ true) → (b ≡ true → a ≡ true) → a ≡ b
same_implied true true f g = refl
same_implied true false f g = sym (f refl)
same_implied false true f g = g refl
same_implied false false f g = refl

pub or_false : (a : Bool) → (a || false) ≡ true → a ≡ true
or_false a h = ground arith

has_high_risk-Step :
    (who : Principal) (t t' : Tables) (u : String)
    → Step who t t'
    → has_high_risk t' (role_ids t' u) ≡ has_high_risk t (role_ids t u)
unfolding has_high_risk
has_high_risk-Step who t t' u s =
    let p : String → Bool = λ r. is_high_risk (t.roles r) in
    let p' : String → Bool = λ r. is_high_risk (t'.roles r) in
    same_implied (any p' (role_ids t' u)) (any p (role_ids t u))
      (λ h. or_false _ (any-role_ids p p' t t' u false (λ r k j. ground (arith, s.high u r)) h))
      (λ h. or_false _ (any-role_ids p' p t' t u false (λ r k j. ground (arith, s.high u r)) h))

pub Step-IsBounded : (who : Principal) (t t' : Tables) → Step who t t' → IsBounded who t t'
unfolding role_grants system_grants config_grants in_tier
Step-IsBounded who t t' s = record {
  models = λ u m c h.
      any-role_ids (λ r. grants_scope t.role_model_permissions r m c)
        (λ r. grants_scope t'.role_model_permissions r m c) t t' u (holds who.model_permissions m c)
        (λ r. s.models u r m c) h;
  system = λ u c h.
      any-role_ids (λ r. contains c (column r t.role_system_permissions))
        (λ r. contains c (column r t'.role_system_permissions)) t t' u
        (contains c who.system_permissions) (λ r. s.system u r c) h;
  configs = λ u n c h.
      any-role_ids (λ r. grants_scope t.role_config_namespace_permissions r n c)
        (λ r. grants_scope t'.role_config_namespace_permissions r n c) t t' u
        (holds who.config_namespace_permissions n c) (λ r. s.configs u r n c) h;
  tier = λ u. rw (has_high_risk-Step who t t' u s, s.credentials) refl;
}

-- ===== src/Tests/Access.antt =====
-- Principals, permissions, the rate limiter and the transactions: runs and properties.
use golang_cms.Prelude.{
  ℕ, zero, suc, ◌<◌, String, true, false, Option, none, some, List, [], ◌∷◌, ◌=s=◌, if◌then◌else◌,
  ◌≡◌, ◌↔◌, ◌⊎◌, refl,
}
use golang_cms.AppError.{deadlock, Result, ok, err}
use golang_cms.Database.Retry.{is_deadlock, retry_deadlocks, retry_deadlocks_once}
use golang_cms.Identity.Types.{PermissionSet, Principal}
use golang_cms.Identity.Defs.{new_principal, can_delegate, can_manage_security_tier}
use golang_cms.Identity.Delegate.{IsWithin, can_delegate-new_principal}
use golang_cms.Permission.Defs.{UserRow, Tables, Providers}
use golang_cms.Auth.Limiter.{RateLimiter, new_rate_limiter, allow}
use golang_cms.Auth.Limiter.Bounds.{IsValid, new_rate_limiter-IsValid, allow-IsValid}
use golang_cms.Tests.Fixtures.{editor}

abbrev granted : PermissionSet
granted = record {
  system = "users.view" ∷ [];
  models = record { scope_id = "m"; permissions = "content.view" ∷ [] } ∷ [];
  config_namespace_permissions = [];
  emergency_admin = false;
  high_risk_role = false;
}

abbrev viewer : Principal
viewer = new_principal "usr_2" "Viewer" none editor.auth_method granted

can_delegate-new_principal_example :
    (can_delegate viewer granted ≡ true)
    ↔ ((can_manage_security_tier viewer ≡ true) ⊎ IsWithin viewer granted)
can_delegate-new_principal_example =
    can_delegate-new_principal "usr_2" "Viewer" none editor.auth_method granted granted

abbrev enabled_user : UserRow
enabled_user = record {
  display_name = "Admin";
  email = none;
  enabled = true;
  created_at = 0;
  updated_at = 0;
}

-- One enabled user, who is an emergency administrator.
abbrev tables : Tables
tables = record {
  users = λ u. if u =s= "usr_1" then some enabled_user else none;
  local_credentials = ("usr_1", true) ∷ [];
  sms_credentials = λ u. none;
  phones = λ u. none;
  user_roles = [];
  roles = λ r. none;
  role_keys = λ k. none;
  role_system_permissions = [];
  role_model_permissions = [];
  role_config_namespace_permissions = [];
}

abbrev providers : Option (Result (List String)) → Providers
providers models = record { active_models = models; active_config_namespaces = none }

-- A limiter of two calls in ten ticks, behind a first call at 5.
abbrev limiter : RateLimiter
limiter = (allow (new_rate_limiter 2 8 10) "ip" 5).0

abbrev attempts_made : List (String × ℕ)
attempts_made = ("ip", 6) ∷ ("other", 7) ∷ ("ip", 8) ∷ []

allow-IsValid_example : IsValid (allow (new_rate_limiter 2 8 10) "ip" 5).0
allow-IsValid_example =
    allow-IsValid (new_rate_limiter 2 8 10) "ip" 5 (new_rate_limiter-IsValid 2 8 10)

-- A transaction that deadlocks once and then writes.
abbrev runner : ℕ → ℕ → Result ℕ × ℕ
runner zero s = (err deadlock, s)
runner (suc i) s = (ok i, suc s)

runner-rolls_back : (i s : ℕ) → is_deadlock (runner i s).0 ≡ true → (runner i s).1 ≡ s
runner-rolls_back zero s h = refl
runner-rolls_back (suc i) s h = absurd (cc)

retry_deadlocks_once_example :
    (i : ℕ) × (i < 3)
    × (retry_deadlocks runner 7 ≡ runner i 7)
    × ((j : ℕ) → j < i → is_deadlock (runner j 7).0 ≡ true)
    × ((is_deadlock (runner i 7).0 ≡ false) ⊎ (i ≡ 2))
retry_deadlocks_once_example = retry_deadlocks_once runner runner-rolls_back 7

-- ===== src/Accounts/Users.antt =====
-- internal/identity/users.go, and `Get` of internal/identity/repository.go.
use golang_cms.Prelude.{
  lookup, String, ℕ, Bool, List, [], ◌∷◌, ◌++◌, Option, none, some, if◌then◌else◌, any,
  sort_strings,
}
use golang_cms.AppError.{Error, app, not_found, Result, ok, err}
use golang_cms.Identity.Types.{AuthMethod, local, sms}
use golang_cms.Permission.Defs.{
  Tables, UserRow, SmsCredential, column, is_some, is_true, is_high_risk,
}

pub data UserStatus : Type 0 where
  enabled disabled : UserStatus

-- `User`, with the fields of the summary that it embeds.
pub record User : Type 0 where
  pub id : String
  pub display_name : String
  pub email : Option String
  pub phone_masked : Option String
  pub auth_methods : List AuthMethod
  pub emergency_admin : Bool
  pub high_risk_role : Bool
  pub status : UserStatus
  pub created_at : ℕ
  pub updated_at : ℕ
  pub phone : Option String
  pub role_ids : List String

-- `VisibleTo`
abbrev pub visible : User → User
visible u = record u { phone = none }

abbrev pub phone_of : Option SmsCredential → Option String
phone_of none = none
phone_of (some c) = some c.phone_e164

abbrev pub masked_of : Option SmsCredential → Option String
masked_of none = none
masked_of (some c) = some c.phone_masked

abbrev pub auth_methods_of : Bool → Bool → List AuthMethod
auth_methods_of has_local has_sms =
    (if has_local then local ∷ [] else []) ++ (if has_sms then sms ∷ [] else [])

-- The two queries of `Get`; a lock changes no result.
unfoldable pub user_of : Tables → String → UserRow → User
unfolding column any
user_of t id row = record {
  id = id;
  display_name = row.display_name;
  email = row.email;
  phone_masked = masked_of (t.sms_credentials id);
  auth_methods =
      auth_methods_of (is_some (lookup id t.local_credentials)) (is_some (t.sms_credentials id));
  emergency_admin = is_true (lookup id t.local_credentials);
  high_risk_role = any (λ r. is_high_risk (t.roles r)) (column id t.user_roles);
  status = if row.enabled then enabled else disabled;
  created_at = row.created_at;
  updated_at = row.updated_at;
  phone = phone_of (t.sms_credentials id);
  role_ids = sort_strings (column id t.user_roles);
}

abbrev pub user_not_found : Error
user_not_found = app not_found "not_found"

-- `Repository.Get`
unfoldable pub get_user : Tables → String → Result User
unfolding user_of
get_user t id = elim (t.users id) [ none ↦ err user_not_found | some row ↦ ok (user_of t id row) ]

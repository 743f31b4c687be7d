-- ===== src/Accounts/Store.antt =====
-- The state and the environment of the role service (internal/permission/service.go) and of the user
-- service (internal/identity/service.go).
use golang_cms.Prelude.{String, ℕ, Bool, List, Option}
use golang_cms.AppError.{Error, app, invalid_argument, internal, Result, ok, ◌>>=◌}
use golang_cms.Audit.{AuditEvent, append_to}
use golang_cms.Identity.Types.{Principal}
use golang_cms.Permission.Defs.{
  Tables, Providers, SessionRow, current_principal, require_system_permission,
}

pub record AccessDb : Type 0 where
  pub tables : Tables
  pub sessions : List SessionRow
  pub audit_events : List AuditEvent

-- What a validator answers: `ErrInvalidModels` or `ErrInvalidConfigNamespaces` is `invalid`.
pub data Validation : Type 0 where
  valid invalid : Validation
  broken : Error → Validation

-- One call. `new_id` is asked once for each prefix, `audit_check` is the validation of the audit
-- writer, `commit` the answer of the commit. A validator is `none` where the field is nil.
pub record AccountEnv : Type 0 where
  pub principal : Principal
  pub now : ℕ
  pub new_id : String → Result String
  pub audit_check : AuditEvent → Option Error
  pub commit : Option Error
  pub providers : Providers
  pub has_users : Bool
  pub models : Option (List String → Validation)
  pub config_namespaces : Option (List String → Validation)

abbrev pub validation : Error
validation = app invalid_argument "validation_failed"

abbrev pub unassembled : Error
unassembled = app internal "internal_error"

-- The principal of the call as the transaction sees it.
unfoldable pub refreshed : AccountEnv → Tables → Result Principal
refreshed env t = current_principal t env.providers env.principal

-- The start of every transaction: the caller, who has the permission.
unfoldable pub manager : AccountEnv → String → Tables → Result Principal
unfolding refreshed
manager env required t = do
  who ← refreshed env t
  _ ← require_system_permission who required
  ok who

-- `appendAudit`
unfoldable pub write_audit :
    AccountEnv → Principal → String → String → String → AccessDb → Result AccessDb
unfolding append_to
write_audit env who action resource_type resource_id db = do
  id ← env.new_id "evt_"
  log ←
      append_to env.audit_check
        (record {
          id = id;
          action = action;
          resource_type = resource_type;
          resource_id = resource_id;
          actor_id = who.user_id;
          actor_display_name = who.display_name;
        })
        db.audit_events
  ok (record db { audit_events = log })

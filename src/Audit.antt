-- ===== src/Audit.antt =====
-- internal/audit/audit.go: the event of a successful action of a user, and its row. The validation of
-- `SQLWriter.Append` is an argument.
use golang_cms.Prelude.{String, List, [], ◌∷◌, ◌++◌, Option, none, some, any, ◌=s=◌, if◌then◌else◌}
use golang_cms.AppError.{Error, failure, Result, ok, err}

-- What a service writes through `audit.Writer`; the request's fields are those of the call, and the
-- changes are not modelled.
pub record AuditEvent : Type 0 where
  pub id : String
  pub action : String
  pub resource_type : String
  pub resource_id : String
  pub actor_id : String
  pub actor_display_name : String

-- `Append`: the validated event goes into its table, whose key is the event.
unfoldable pub append_to :
    (AuditEvent → Option Error) → AuditEvent → List AuditEvent → Result (List AuditEvent)
append_to check event log = elim (check event) [
  | some e ↦ err e
  | none ↦ if any (λ other. other.id =s= event.id) log then err failure else ok (log ++ event ∷ [])
]

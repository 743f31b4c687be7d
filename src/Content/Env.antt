-- ===== src/Content/Env.antt =====
-- What an operation of the content service is given from outside: the caller, the clock, the new
-- identifiers, and the components behind its interfaces.
use golang_cms.Audit.{AuditEvent}
use golang_cms.Prelude.{
  ℕ, String, Bool, Option, none, some, List, [], ◌∷◌, ◌++◌, ◌=s=◌, if◌then◌else◌, any,
}
use golang_cms.AppError.{Error, failure, Result, ok, err, ◌>>=◌}
use golang_cms.Identity.Types.{Principal}
use golang_cms.Schema.{ContentFields}
use golang_cms.Content.Types.{Revision, MediaReference, Relation, FieldValue, UniqueValue, Db}

-- What the derived rows take from the revision that they belong to.
pub record RevisionKey : Type 0 where
  pub id : String
  pub entry_id : String
  pub model_id : String

abbrev pub key_of : Revision → RevisionKey
key_of r = record { id = r.id; entry_id = r.entry_id; model_id = r.model_id }

-- internal/content/validation.go as the service calls it: the checked content, and what is derived
-- from it.
pub record Rules : Type 0 where
  pub validate_content : String → ContentFields → Result String
  pub media_references : String → RevisionKey → ContentFields → Result (List MediaReference)
  pub derivatives : String → RevisionKey → ContentFields → Result (List FieldValue × List Relation)
  pub unique_values : String → ContentFields → Result (List UniqueValue)

-- One call. `new_id` is `randomID`, asked once for each prefix. `audit_check` is the validation of
-- `audit.Writer`, `commit` the answer of the commit, `resolve_assets` the error of
-- `ReferencedAssetResolver`, which runs behind the transaction. `media_enabled` is `s.media != nil`.
pub record Env : Type 0 where
  pub principal : Principal
  pub now : ℕ
  pub new_id : String → Result String
  pub audit_check : AuditEvent → Option Error
  pub commit : Option Error
  pub resolve_assets : String → Option Error
  pub media_enabled : Bool
  pub rules : Rules

-- The event of an action of the caller.
abbrev pub audit_event : Env → String → String → String → String → AuditEvent
audit_event env id action resource_type resource_id = record {
  id = id;
  action = action;
  resource_type = resource_type;
  resource_id = resource_id;
  actor_id = env.principal.user_id;
  actor_display_name = env.principal.display_name;
}

-- `Append` of the audit writer: the validated event goes into its table.
unfoldable pub append_event : Env → AuditEvent → Db → Result (Unit {0} × Db)
append_event env event db = elim (env.audit_check event) [
  | some e ↦ err e
  | none ↦
      if any (λ other. other.id =s= event.id) db.audit_events
      then err failure
      else ok (tt, record db { audit_events = db.audit_events ++ event ∷ [] })
]

-- `appendAudit`
unfoldable pub append_audit : Env → String → String → String → Db → Result (Unit {0} × Db)
append_audit env action resource_type resource_id db = do
  id ← env.new_id "evt_"
  append_event env (audit_event env id action resource_type resource_id) db

-- ===== src/Content/Workflow.antt =====
-- The review workflow of internal/content/service.go.
pub mod Actions
pub mod Steps
pub mod Effect
pub mod Revalued
pub mod Outcome
use golang_cms.Prelude.{
  ℕ, String, Bool, true, false, not, ◌&&◌, ◌||◌, Option, none, some, List, [], ◌∷◌, ◌++◌, ◌=s=◌,
  ltb, is_empty_text, if◌then◌else◌, any, Table, trim_space, rune_count,
}
use golang_cms.AppError.{Error, conflicting, validation_failed, Result, ok, err, ◌>>=◌, ◌>>◌, guard}
use golang_cms.Database.{within_tx}
use golang_cms.Permission.Defs.{require_model_permission}
use golang_cms.Schema.{ContentModel}
use golang_cms.Content.Types.{
  EventType, WorkflowStatus, Revision, WorkflowEvent, EntrySummary, Entry, UniqueValue,
  MediaReference, AssetStatus, Db, AssetRow, submitted, approved, rejected, same_status,
}
use golang_cms.Content.Repository.{
  get_model, lock_entry, get_revision, get_entry, transition_revision, set_published_pointer,
  delete_published_pointer, create_workflow_event, replace_unique_values,
}
use golang_cms.Content.Env.{Env, key_of, append_audit}

-- The arguments by which the four actions call `workflow`.
pub record Transition : Type 0 where
  pub event_type : EventType
  pub from : WorkflowStatus
  pub to : WorkflowStatus
  pub permission : String
  pub reason : String
  pub draft_pointer : Bool

abbrev pub is_approved : EventType → Bool
is_approved EventType.approved = true
is_approved _ = false

abbrev pub is_unpublished : EventType → Bool
is_unpublished EventType.unpublished = true
is_unpublished _ = false

abbrev pub is_submitted : EventType → Bool
is_submitted EventType.submitted = true
is_submitted _ = false

abbrev pub or_empty : Option String → String
or_empty none = ""
or_empty (some s) = s

-- `expected`: the pointer that the request must name.
unfoldable pub expected_revision : Transition → EntrySummary → Entry → String
expected_revision t entry current =
    if t.draft_pointer
    then entry.current_draft_revision_id
    else if is_unpublished t.event_type
    then or_empty current.current_published_revision_id
    else entry.current_draft_revision_id

-- A referenced asset that rules a publication out; a reference without an asset has no row in the
-- join of `ValidatePublishableRevision`.
abbrev pub not_available : AssetStatus → Bool
not_available AssetStatus.available = false
not_available _ = true

abbrev pub is_unpublishable : Option AssetRow → Bool
is_unpublishable none = false
is_unpublishable (some a) = not_available a.status

-- `ValidatePublishableRevision` of internal/asset/references.go
unfoldable pub validate_publishable : Db → String → Result (Unit {0})
validate_publishable db revision_id =
    guard
      (not (
        any (λ r. r.revision_id =s= revision_id && is_unpublishable (db.assets r.asset_id))
          db.asset_references))
      (conflicting "asset_not_publishable")

abbrev pub is_nil {ℓ} : {A : Type ℓ} → List A → Bool
is_nil [] = true
is_nil (x ∷ xs) = false

-- The media check of an approval.
unfoldable pub check_media : Env → Transition → String → Revision → Db → Result (Unit {0})
check_media env t model_id revision db = if not (is_approved t.event_type) then ok tt else do
  model ← get_model db model_id
  references ← env.rules.media_references revision.content (key_of revision) model.fields
  if is_nil references
      then ok tt
      else if not env.media_enabled
      then err (conflicting "assets_disabled")
      else validate_publishable db revision.id

-- The guards of `workflow`, up to its first write: the entry and the revision that it is about.
unfoldable pub locate : Env → Transition → String → String → String → Db → Result (Entry × Revision)
locate env t model_id entry_id revision_id db = do
  require_model_permission env.principal model_id t.permission
  get_model db model_id
  entry ← lock_entry db model_id entry_id
  current ← get_entry db model_id entry_id
  guard (expected_revision t entry current =s= revision_id)
      (conflicting "workflow_revision_conflict")
  revision ← get_revision db model_id entry_id revision_id
  guard (same_status revision.workflow_status t.from) (conflicting "invalid_workflow_transition")
  check_media env t model_id revision db
  ok (current, revision)

-- `submitter` and `submittedAt`
abbrev pub submitter_of : Env → Transition → Option String
submitter_of env t = if is_submitted t.event_type then some env.principal.user_id else none

abbrev pub submitted_at_of : Env → Transition → Option ℕ
submitted_at_of env t = if is_submitted t.event_type then some env.now else none

-- The revision's own transition.
unfoldable pub transition_target : Env → Transition → String → Db → Result (Unit {0} × Db)
transition_target env t revision_id db =
    let (changed, revisions) =
      transition_revision revision_id t.from t.to (submitter_of env t) (submitted_at_of env t)
        db.revisions in
    if changed
    then ok (tt, record db { revisions = revisions })
    else err (conflicting "invalid_workflow_transition")

-- An approval takes the revision published before offline.
unfoldable pub retire_published : String → Option String → Db → Result (Unit {0} × Db)
retire_published revision_id none db = ok (tt, db)
retire_published revision_id (some old) db =
    let (changed, revisions) =
      transition_revision old WorkflowStatus.published WorkflowStatus.unpublished none none
        db.revisions in
    if old =s= revision_id
    then ok (tt, db)
    else if changed
    then ok (tt, record db { revisions = revisions })
    else err (conflicting "workflow_revision_conflict")

-- The change of the published pointer.
unfoldable pub move_pointer :
    Env → EventType → String → String → String → Option String → Db → Result (Unit {0} × Db)
move_pointer env EventType.approved model_id entry_id revision_id old db = do
  (_, db') ← retire_published revision_id old db
  ok (tt, set_published_pointer model_id entry_id revision_id env.now db')
move_pointer env EventType.unpublished model_id entry_id revision_id old db =
    let (deleted, pointers) =
      delete_published_pointer model_id entry_id revision_id db.published_pointers in
    if deleted
    then ok (tt, record db { published_pointers = pointers })
    else err (conflicting "workflow_revision_conflict")
move_pointer env _ model_id entry_id revision_id old db = ok (tt, db)

-- The event that is written for the transition.
unfoldable pub record_event : Env → Transition → String → String → Db → Result (Unit {0} × Db)
record_event env t entry_id revision_id db = do
  event_id ← env.new_id "wfe_"
  create_workflow_event
      (record {
        id = event_id;
        entry_id = entry_id;
        revision_id = revision_id;
        event_type = t.event_type;
        from_status = t.from;
        to_status = t.to;
        actor_id = env.principal.user_id;
        reason = if is_empty_text t.reason then none else some t.reason;
        occurred_at = env.now;
      })
      db

abbrev pub is_value : UniqueValue → UniqueValue → Bool
is_value a b = a.field_id =s= b.field_id && a.canonical_value =s= b.canonical_value

-- `seen` and `all` of `rebuildUniqueValues`: a value is taken once.
unfoldable pub add_values : List UniqueValue → List UniqueValue → List UniqueValue
add_values taken [] = taken
add_values taken (v ∷ vs) =
    add_values (if any (is_value v) taken then taken else taken ++ v ∷ []) vs

-- The values of the published revision, if there is one.
unfoldable pub published_values : Env → ContentModel → Option Revision → Result (List UniqueValue)
published_values env model none = ok []
published_values env model (some revision) = env.rules.unique_values revision.content model.fields

-- `rebuildUniqueValues`
unfoldable pub rebuild_unique_values : Env → String → String → Db → Result (Unit {0} × Db)
rebuild_unique_values env model_id entry_id db = do
  model ← get_model db model_id
  entry ← get_entry db model_id entry_id
  drafted ← env.rules.unique_values entry.current_draft_revision.content model.fields
  published ← published_values env model entry.current_published_revision
  table ←
      replace_unique_values model_id entry_id (add_values (add_values [] drafted) published)
        db.unique_values
  ok (tt, record db { unique_values = table })

-- The values are taken anew where the published pointer has moved.
unfoldable pub refresh_unique : Env → EventType → String → String → Db → Result (Unit {0} × Db)
refresh_unique env event_type model_id entry_id db =
    if is_approved event_type || is_unpublished event_type
    then rebuild_unique_values env model_id entry_id db
    else ok (tt, db)

abbrev pub audit_action : EventType → String
audit_action EventType.submitted = "content_revision_submitted"
audit_action EventType.approved = "content_revision_approved"
audit_action EventType.rejected = "content_revision_rejected"
audit_action EventType.unpublished = "content_revision_unpublished"

-- The function that `workflow` runs in its transaction.
unfoldable pub workflow_tx : Env → Transition → String → String → String → Db → Result (Entry × Db)
workflow_tx env t model_id entry_id revision_id db = do
  (current, revision) ← locate env t model_id entry_id revision_id db
  (_, db1) ← transition_target env t revision_id db
  (_, db2) ←
      move_pointer env t.event_type model_id entry_id revision_id
        current.current_published_revision_id db1
  (_, db3) ← record_event env t entry_id revision_id db2
  (_, db4) ← refresh_unique env t.event_type model_id entry_id db3
  (_, db5) ← append_audit env (audit_action t.event_type) "content_revision" revision_id db4
  result ← get_entry db5 model_id entry_id
  ok (result, db5)

-- `resolveEntryAssets` behind the transaction: its failure is the call's.
unfoldable pub resolve_entry_assets : Env → Result Entry × Db → Result Entry × Db
resolve_entry_assets env (err e, db) = (err e, db)
resolve_entry_assets env (ok entry, db) =
    elim (env.resolve_assets entry.current_draft_revision_id) [
      | none ↦ (ok entry, db)
      | some e ↦ (err e, db)
    ]

-- `workflow`
unfoldable pub workflow : Env → Transition → String → String → String → Db → Result Entry × Db
workflow env t model_id entry_id revision_id db =
    if is_empty_text revision_id
    then (err validation_failed, db)
    else resolve_entry_assets env
        (within_tx env.commit (workflow_tx env t model_id entry_id revision_id) db)

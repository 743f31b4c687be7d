-- ===== src/Content/Repository.antt =====
-- internal/content/repository.go: each query as a function of the tables. A row lock changes no
-- result of one transaction and is not modelled. The foreign keys and `CHECK`s of db/migrations are
-- not executed; a duplicate primary key is a `failure`.
use golang_cms.Prelude.{
  ℕ, String, Bool, true, false, ◌&&◌, Option, none, some, List, [], ◌∷◌, ◌++◌, ◌=s=◌, if◌then◌else◌,
  any, Table, put, remove,
}
use golang_cms.AppError.{
  failure, Result, ok, err, ◌>>=◌, ◌>>◌, guard, resource_not_found, validation_failed,
}
use golang_cms.Schema.{ContentModel}
use golang_cms.Content.Types.{
  EntryStatus, WorkflowStatus, Revision, WorkflowEvent, EntrySummary, Entry, UniqueValue, EntryRow,
  DraftPointer, PublishedPointer, Db, Relation, is_archived, same_status,
}

-- `sql.ErrNoRows` is a not-found error.
abbrev pub found {ℓ} : {A : Type ℓ} → Option A → Result A
found none = err resource_not_found
found (some a) = ok a

abbrev pub map_option {ℓ κ} : {A : Type ℓ} {B : Type κ} → (A → B) → Option A → Option B
map_option f none = none
map_option f (some a) = some (f a)

-- `LockModel` and `GetModel` of internal/schema/repository.go
unfoldable pub get_model : Db → String → Result ContentModel
get_model db model_id = found (db.models model_id)

-- The join of `LockEntry` and `GetEntry`.
unfoldable pub lock_entry : Db → String → String → Result EntrySummary
lock_entry db model_id entry_id = do
  row ← found (db.entries entry_id)
  guard (row.model_id =s= model_id) resource_not_found
  pointer ← found (db.draft_pointers entry_id)
  guard (pointer.model_id =s= model_id) resource_not_found
  revision ← found (db.revisions pointer.revision_id)
  ok (record {
    id = entry_id;
    model_id = model_id;
    status = row.status;
    current_draft_revision_id = pointer.revision_id;
    workflow_status = revision.workflow_status;
    current_published_revision_id =
        map_option (λ (p : PublishedPointer). p.revision_id) (db.published_pointers entry_id);
    created_by = row.created_by;
    created_at = row.created_at;
    updated_at = row.updated_at;
  })

-- `GetRevision`, `LockRevision`
unfoldable pub get_revision : Db → String → String → String → Result Revision
get_revision db model_id entry_id revision_id = do
  revision ← found (db.revisions revision_id)
  guard (revision.entry_id =s= entry_id && revision.model_id =s= model_id) resource_not_found
  ok revision

unfoldable pub get_published : Db → String → String → Option String → Result (Option Revision)
get_published db model_id entry_id none = ok none
get_published db model_id entry_id (some revision_id) = do
  revision ← get_revision db model_id entry_id revision_id
  ok (some revision)

-- `GetEntry`. `GetWorkflowEntry` reads the published pointer again and finds the same row.
unfoldable pub get_entry : Db → String → String → Result Entry
get_entry db model_id entry_id = do
  summary ← lock_entry db model_id entry_id
  revision ← get_revision db model_id entry_id summary.current_draft_revision_id
  published ← get_published db model_id entry_id summary.current_published_revision_id
  ok (record {
    summary = summary;
    current_draft_revision = revision;
    current_published_revision = published;
  })

-- `COALESCE(column, value)`
abbrev pub coalesce {ℓ} : {A : Type ℓ} → Option A → Option A → Option A
coalesce (some a) b = some a
coalesce none b = b

-- The row that `TransitionRevision` writes.
abbrev pub transitioned : Revision → WorkflowStatus → Option String → Option ℕ → Revision
transitioned r to submitter at = record r {
  workflow_status = to;
  submitted_by = coalesce r.submitted_by submitter;
  submitted_at = coalesce r.submitted_at at;
}

-- `TransitionRevision`: whether a row has changed, and the revisions.
unfoldable pub transition_revision :
    String
    → WorkflowStatus
    → WorkflowStatus
    → Option String
    → Option ℕ
    → Table Revision
    → Bool × Table Revision
transition_revision id from to submitter at t = elim (t id) [
  | none ↦ (false, t)
  | some r ↦
      if same_status r.workflow_status from
      then (true, put id (transitioned r to submitter at) t)
      else (false, t)
]

-- `SetPublishedPointer`
unfoldable pub set_published_pointer : String → String → String → ℕ → Db → Db
set_published_pointer model_id entry_id revision_id at db =
    let row : PublishedPointer = elim (db.published_pointers entry_id) [
      | none ↦ record { model_id = model_id; revision_id = revision_id; published_at = at }
      | some p ↦ record p { revision_id = revision_id; published_at = at }
    ] in
    record db { published_pointers = put entry_id row db.published_pointers }

-- `DeletePublishedPointer`: whether a row was deleted.
unfoldable pub delete_published_pointer :
    String → String → String → Table PublishedPointer → Bool × Table PublishedPointer
delete_published_pointer model_id entry_id revision_id t = elim (t entry_id) [
  | none ↦ (false, t)
  | some p ↦
      if p.model_id =s= model_id && p.revision_id =s= revision_id
      then (true, remove entry_id t)
      else (false, t)
]

-- `SetDraftPointer`
unfoldable pub set_draft_pointer : String → String → String → Db → Db
set_draft_pointer model_id entry_id revision_id db =
    let row : DraftPointer = elim (db.draft_pointers entry_id) [
      | none ↦ record { model_id = model_id; revision_id = revision_id }
      | some p ↦ record p { revision_id = revision_id }
    ] in
    record db { draft_pointers = put entry_id row db.draft_pointers }

-- `CreateWorkflowEvent`
unfoldable pub create_workflow_event : WorkflowEvent → Db → Result (Unit {0} × Db)
create_workflow_event event db =
    if any (λ e. e.id =s= event.id) db.workflow_events
    then err failure
    else ok (tt, record db { workflow_events = db.workflow_events ++ event ∷ [] })

-- `CreateEntry`
unfoldable pub create_entry : EntryRow → Db → Result (Unit {0} × Db)
create_entry row db = elim (db.entries row.id) [
  | some _ ↦ err failure
  | none ↦ ok (tt, record db { entries = put row.id row db.entries })
]

-- `CreateRevision`
unfoldable pub create_revision : Revision → Db → Result (Unit {0} × Db)
create_revision revision db = elim (db.revisions revision.id) [
  | some _ ↦ err failure
  | none ↦ ok (
    tt,
    record db {
      revisions =
          put revision.id
            (record revision {
              workflow_status = WorkflowStatus.draft;
              submitted_by = none;
              submitted_at = none;
            })
            db.revisions;
    },
  )
]

-- `UpdateEntry`
unfoldable pub update_entry : String → String → EntryStatus → ℕ → Db → Db
update_entry model_id entry_id status at db = elim (db.entries entry_id) [
  | none ↦ db
  | some row ↦
      if row.model_id =s= model_id
      then record db {
        entries = put entry_id (record row { status = status; updated_at = at }) db.entries;
      }
      else db
]

abbrev pub UniqueTable : Type 0
UniqueTable = String → String → String → Option String

-- `DeleteUniqueValues`, and the first statement of `ReplaceUniqueValues`.
unfoldable pub delete_unique_values : String → String → UniqueTable → UniqueTable
delete_unique_values model_id entry_id t m f v =
    if m =s= model_id
    then elim (t m f v) [ none ↦ none | some e ↦ (if e =s= entry_id then none else some e) ]
    else t m f v

abbrev pub put_unique : String → String → UniqueValue → UniqueTable → UniqueTable
put_unique model_id entry_id u t m f v =
    if m =s= model_id && (f =s= u.field_id && v =s= u.canonical_value)
    then some entry_id
    else t m f v

-- The inserts of `ReplaceUniqueValues`; a duplicate key is what `replaceUniqueValues` of the service
-- reports as `validation_failed`.
unfoldable pub insert_unique_values :
    String → String → List UniqueValue → UniqueTable → Result UniqueTable
insert_unique_values model_id entry_id [] t = ok t
insert_unique_values model_id entry_id (u ∷ us) t =
    let rest = insert_unique_values model_id entry_id us (put_unique model_id entry_id u t) in
    elim (t model_id u.field_id u.canonical_value) [ some _ ↦ err validation_failed | none ↦ rest ]

-- `ReplaceUniqueValues`
unfoldable pub replace_unique_values :
    String → String → List UniqueValue → UniqueTable → Result UniqueTable
replace_unique_values model_id entry_id values t =
    insert_unique_values model_id entry_id values (delete_unique_values model_id entry_id t)

-- `ValidateRelationTargets`. The targets are sorted and checked once each for the order of the locks.
unfoldable pub validate_relation_targets : Db → List Relation → Result (Unit {0})
validate_relation_targets db [] = ok tt
validate_relation_targets db (r ∷ rs) =
    let rest = validate_relation_targets db rs in
    elim (db.entries r.target_entry_id) [
      | none ↦ err validation_failed
      | some row ↦
          if row.model_id =s= r.target_model_id
          then (if is_archived row.status then err validation_failed else rest)
          else err validation_failed
    ]

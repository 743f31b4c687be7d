-- ===== src/Content/Drafting.antt =====
-- `CreateEntry`, `UpdateEntry` and `ArchiveEntry` of internal/content/service.go. The validation and
-- the derivation of rows run twice, on the model as read and on the model as locked, as in the source.
pub mod Steps
pub mod Opened
pub mod Written
use golang_cms.Prelude.{
  ℕ, ◌+◌, String, Bool, true, false, not, ◌&&◌, ◌||◌, Option, none, some, List, [], ◌∷◌, ◌++◌,
  ◌=s=◌, is_empty_text, if◌then◌else◌,
}
use golang_cms.AppError.{Error, conflicting, validation_failed, Result, ok, err, ◌>>=◌, ◌>>◌, guard}
use golang_cms.Database.{within_tx}
use golang_cms.Permission.Defs.{require_model_permission}
use golang_cms.Schema.{ContentModel, ContentFields}
use golang_cms.Content.Types.{
  EntryStatus, WorkflowStatus, Revision, EntrySummary, Entry, EntryRow, Db, is_archived,
  same_status,
}
use golang_cms.Content.Repository.{
  get_model, lock_entry, get_revision, get_entry, create_entry, create_revision, set_draft_pointer,
  update_entry, delete_unique_values, replace_unique_values, validate_relation_targets,
}
use golang_cms.Content.Env.{Env, RevisionKey, key_of, append_audit}
use golang_cms.Content.References.{
  is_active, lock_relation_models, ensure_relation_models_locked, precheck_media,
}
use golang_cms.Content.Workflow.{is_nil, rebuild_unique_values, resolve_entry_assets}

-- The model that a draft is written for, locked, and the checked content.
unfoldable pub lock_schema :
    Env → String → RevisionKey → String → Db → Result (ContentModel × String)
lock_schema env model_id key raw db = do
  unlocked ← get_model db model_id
  content ← env.rules.validate_content raw unlocked.fields
  (_, relations) ← env.rules.derivatives content key unlocked.fields
  locked ← lock_relation_models db model_id relations
  model ← get_model db model_id
  guard (is_active model.status) (conflicting "resource_archived")
  checked ← env.rules.validate_content raw model.fields
  ensure_relation_models_locked env.rules db checked key model.fields locked
  ok (model, checked)

-- `writeRevisionDerivatives`. The rows carry the new revision's id; the keys of their tables are not
-- executed.
unfoldable pub write_revision_derivatives :
    Env → Revision → ContentFields → String → Bool → Bool → Db → Result (Unit {0} × Db)
write_revision_derivatives env revision fields base relations_prechecked media_prechecked db = do
  references ← env.rules.media_references revision.content (key_of revision) fields
  (values, relations) ← env.rules.derivatives revision.content (key_of revision) fields
  if relations_prechecked then ok tt else validate_relation_targets db relations
  if media_prechecked then ok tt else precheck_media env db references base
  guard (is_nil references || env.media_enabled) (conflicting "assets_disabled")
  ok (
    tt,
    record db {
      asset_references = db.asset_references ++ references;
      field_values = db.field_values ++ values;
      relations = db.relations ++ relations;
    },
  )

unfoldable pub draft_revision : Env → RevisionKey → ℕ → String → Revision
draft_revision env key number content = record {
  id = key.id;
  entry_id = key.entry_id;
  model_id = key.model_id;
  number = number;
  content = content;
  workflow_status = WorkflowStatus.draft;
  created_by = env.principal.user_id;
  submitted_by = none;
  submitted_at = none;
  created_at = env.now;
}

unfoldable pub new_entry_row : Env → RevisionKey → EntryRow
new_entry_row env key = record {
  id = key.entry_id;
  model_id = key.model_id;
  status = EntryStatus.draft;
  created_by = env.principal.user_id;
  created_at = env.now;
  updated_at = env.now;
}

-- `replaceUniqueValues` on the values of one content.
unfoldable pub occupy_values :
    Env → ContentModel → RevisionKey → String → Db → Result (Unit {0} × Db)
occupy_values env model key content db = do
  values ← env.rules.unique_values content model.fields
  table ← replace_unique_values key.model_id key.entry_id values db.unique_values
  ok (tt, record db { unique_values = table })

-- `createDraftInTx` without a batch.
unfoldable pub create_draft_in_tx : Env → RevisionKey → String → Db → Result (Entry × Db)
create_draft_in_tx env key raw db = do
  require_model_permission env.principal key.model_id "content.create"
  (model, content) ← lock_schema env key.model_id key raw db
  let revision = draft_revision env key 1 content
  (_, db1) ← create_entry (new_entry_row env key) db
  (_, db2) ← create_revision revision db1
  let db3 = set_draft_pointer key.model_id key.entry_id key.id db2
  (_, db4) ← write_revision_derivatives env revision model.fields "" false false db3
  (_, db5) ← occupy_values env model key content db4
  (_, db6) ← append_audit env "content_entry_created" "content_entry" key.entry_id db5
  entry ← get_entry db6 key.model_id key.entry_id
  ok (entry, db6)

-- `CreateEntry`
unfoldable pub create : Env → String → String → Db → Result Entry × Db
create env model_id raw db = elim (env.new_id "ent_") [
  | err e ↦ (err e, db)
  | ok entry_id ↦ elim (env.new_id "rev_") [
    | err e ↦ (err e, db)
    | ok revision_id ↦
        let key : RevisionKey = record {
          id = revision_id;
          entry_id = entry_id;
          model_id = model_id;
        } in
        resolve_entry_assets env (within_tx env.commit (create_draft_in_tx env key raw) db)
  ]
]

-- The guards of an update: the locked entry, its model, the checked content and the draft so far.
unfoldable pub open_draft :
    Env
    → RevisionKey
    → String
    → String
    → Db
    → Result (EntrySummary × (ContentModel × (String × Revision)))
open_draft env key base raw db = do
  require_model_permission env.principal key.model_id "content.update"
  (model, content) ← lock_schema env key.model_id key raw db
  entry ← lock_entry db key.model_id key.entry_id
  guard (not (is_archived entry.status)) (conflicting "resource_archived")
  guard (entry.current_draft_revision_id =s= base) (conflicting "draft_revision_conflict")
  (_, relations) ← env.rules.derivatives content key model.fields
  validate_relation_targets db relations
  current ← get_revision db key.model_id key.entry_id entry.current_draft_revision_id
  guard (not (same_status current.workflow_status WorkflowStatus.pending_review))
      (conflicting "invalid_workflow_transition")
  ok (entry, (model, (content, current)))

-- The entry that an update answers: the locked summary with the new draft, and no published revision.
unfoldable pub updated_entry : Env → EntrySummary → Revision → Entry
updated_entry env entry revision = record {
  summary = record entry { current_draft_revision_id = revision.id; updated_at = env.now };
  current_draft_revision = revision;
  current_published_revision = none;
}

-- The function that `UpdateEntry` runs in its transaction.
unfoldable pub update_tx : Env → RevisionKey → String → String → Db → Result (Entry × Db)
update_tx env key base raw db = do
  (entry, (model, (content, current))) ← open_draft env key base raw db
  let revision = draft_revision env key (current.number + 1) content
  (_, db1) ← create_revision revision db
  (_, db2) ← write_revision_derivatives env revision model.fields current.id true false db1
  let db3 = set_draft_pointer key.model_id key.entry_id key.id db2
  (_, db4) ← rebuild_unique_values env key.model_id key.entry_id db3
  let db5 = update_entry key.model_id key.entry_id entry.status env.now db4
  (_, db6) ← append_audit env "content_revision_created" "content_revision" key.id db5
  ok (updated_entry env entry revision, db6)

-- `UpdateEntry`
unfoldable pub update : Env → String → String → String → String → Db → Result Entry × Db
update env model_id entry_id base raw db =
    if is_empty_text base then (err validation_failed, db) else elim (env.new_id "rev_") [
      | err e ↦ (err e, db)
      | ok revision_id ↦
          let key : RevisionKey = record {
            id = revision_id;
            entry_id = entry_id;
            model_id = model_id;
          } in
          resolve_entry_assets env (within_tx env.commit (update_tx env key base raw) db)
    ]

abbrev pub is_absent {ℓ} : {A : Type ℓ} → Option A → Bool
is_absent none = true
is_absent (some a) = false

-- The function that `ArchiveEntry` runs in its transaction.
unfoldable pub archive_tx : Env → String → String → Db → Result (Unit {0} × Db)
archive_tx env model_id entry_id db = do
  require_model_permission env.principal model_id "content.archive"
  get_model db model_id
  entry ← lock_entry db model_id entry_id
  guard (not (is_archived entry.status)) (conflicting "resource_archived")
  current ← get_entry db model_id entry_id
  guard (is_absent current.current_published_revision_id)
      (conflicting "published_entry_archive_forbidden")
  let db1 = update_entry model_id entry_id EntryStatus.archived env.now db
  let db2 = record db1 { unique_values = delete_unique_values model_id entry_id db1.unique_values }
  append_audit env "content_entry_archived" "content_entry" entry_id db2

-- `ArchiveEntry`
unfoldable pub archive : Env → String → String → Db → Result (Unit {0}) × Db
archive env model_id entry_id db = within_tx env.commit (archive_tx env model_id entry_id) db

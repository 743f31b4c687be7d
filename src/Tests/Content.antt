-- ===== src/Tests/Content.antt =====
-- The content service: runs and properties.
use golang_cms.Prelude.{
  ◌+◌, ◌⊎◌, inl, ◌||◌, String, Option, none, some, List, [], ◌∷◌, ◌≡◌, refl, any, contains, all,
  put, remove,
}
use golang_cms.AppError.{Error, conflicting, Result, ok, err}
use golang_cms.Database.{within_tx}
use golang_cms.Identity.Normalize.{holds}
use golang_cms.Permission.Defs.{require_model_permission}
use golang_cms.Content.Types.{
  EntryStatus, WorkflowStatus, Revision, EntrySummary, Entry, EntryRow, DraftPointer,
  PublishedPointer, UniqueValue, Db,
}
use golang_cms.Content.Repository.{
  UniqueTable, get_model, lock_entry, get_revision, get_published, get_entry, transition_revision,
  set_published_pointer, delete_published_pointer, create_workflow_event, replace_unique_values,
  insert_unique_values, delete_unique_values, create_entry, create_revision, set_draft_pointer,
  update_entry, validate_relation_targets,
}
use golang_cms.Content.Env.{append_audit, append_event}
use golang_cms.Content.References.{
  lock_relation_models, check_locked, ensure_relation_models_locked, precheck_media,
}
use golang_cms.Content.Workflow.{
  resolve_entry_assets, workflow, workflow_tx, locate, expected_revision, check_media,
  transition_target, move_pointer, retire_published, record_event, refresh_unique,
  rebuild_unique_values, published_values, add_values,
}
use golang_cms.Content.Workflow.Actions.{
  perform, submit, approve, unpublish, submits, approves, unpublishes,
}
use golang_cms.Content.Drafting.{
  create, create_draft_in_tx, lock_schema, write_revision_derivatives, draft_revision,
  new_entry_row, occupy_values, update, update_tx, open_draft, updated_entry, archive, archive_tx,
}
use golang_cms.Tests.Fixtures.{env1, env2, env3, env4, no_content, created, in_review, online}
use golang_cms.Content.Review.{perform-Outcome, perform-failed}
use golang_cms.Content.Workflow.Actions.{transition_of}
use golang_cms.Content.Workflow.Outcome.{Outcome}
use golang_cms.Content.Workflow.Effect.{Rebuilt}
use golang_cms.Content.Drafting.Written.{DraftWritten}
use golang_cms.Content.Drafting.Opened.{Opened}
use golang_cms.Content.Drafting.Steps.{restated}
use golang_cms.Content.Drafts.{
  key_for, update-DraftWritten, update-workflow_status, archive-Archived, archived-is_final,
}
use golang_cms.Content.Valid.{IsValid}
use golang_cms.Content.Valid.Archived.{Archived}
use golang_cms.Content.Valid.Readable.{get_entry-total, Reads}
use golang_cms.Content.Valid.Published.{IsOnline, ByApproval, serve-ByApproval}
use golang_cms.Content.Valid.Calls.{
  Call, creates, updates, reviews, serve, serve_all, serve_all-IsValid,
}
use golang_cms.Content.Unique.{
  names, Replaced, rebuild_unique_values-row, replace_unique_values-total,
}
use golang_cms.Tests.Fixtures.{no_content-IsValid}

abbrev published_revision : Revision
published_revision = record {
  id = "r1";
  entry_id = "e1";
  model_id = "m";
  number = 1;
  content = "hello";
  workflow_status = WorkflowStatus.published;
  created_by = "usr_1";
  submitted_by = some "usr_1";
  submitted_at = some 2;
  created_at = 1;
}

-- The entry behind its approval.
abbrev published_entry : Entry
published_entry = record {
  summary = record {
    id = "e1";
    model_id = "m";
    status = EntryStatus.draft;
    current_draft_revision_id = "r1";
    workflow_status = WorkflowStatus.published;
    current_published_revision_id = some "r1";
    created_by = "usr_1";
    created_at = 1;
    updated_at = 1;
  };
  current_draft_revision = published_revision;
  current_published_revision = some published_revision;
}

-- What the update of the published entry answers.
abbrev revised_entry : Entry
revised_entry = record {
  summary = record published_entry.summary { current_draft_revision_id = "r4"; updated_at = 4 };
  current_draft_revision = record {
    id = "r4";
    entry_id = "e1";
    model_id = "m";
    number = 2;
    content = "world";
    workflow_status = WorkflowStatus.draft;
    created_by = "usr_1";
    submitted_by = none;
    submitted_at = none;
    created_at = 4;
  };
  current_published_revision = none;
}

abbrev archived_db : Db
archived_db = (archive env4 "m" "e1" created).1

abbrev archived_row : EntryRow
archived_row = record {
  id = "e1";
  model_id = "m";
  status = EntryStatus.archived;
  created_by = "usr_1";
  created_at = 1;
  updated_at = 4;
}

abbrev behind : Result (Unit {0} × Db) → Db
behind (ok (_, db)) = db
behind (err _) = no_content

abbrev rebuilt : Db
rebuilt = behind (rebuild_unique_values env4 "m" "e1" created)

abbrev calls : List Call
calls =
    creates env1 "m" "hello"
    ∷ reviews env2 submits "m" "e1" "r1"
    ∷ reviews env3 approves "m" "e1" "r1"
    ∷ updates env4 "m" "e1" "r1" "world"
    ∷ []

abbrev row_behind : EntryRow
row_behind = record archived_row { status = EntryStatus.draft }

abbrev revived_db : Db
revived_db =
    (perform env3 approves "m" "e1" "r1" (perform env2 submits "m" "e1" "r1" archived_db).1).1

abbrev revived_pointer : PublishedPointer
revived_pointer = record { model_id = "m"; revision_id = "r1"; published_at = 3 }

abbrev approving : Call
approving = reviews env3 approves "m" "e1" "r1"

-- Runs of the service.
record Runs : Type 0 where
  approved : (perform env3 approves "m" "e1" "r1" in_review).0 ≡ ok published_entry
  refused :
      (perform env3 approves "m" "e1" "r1" created).0
      ≡ err (conflicting "invalid_workflow_transition")
  updated : (update env4 "m" "e1" "r1" "world" online).0 ≡ ok revised_entry
  archived : (archive env4 "m" "e1" created).0 ≡ ok tt
  archived_entry : archived_db.entries "e1" ≡ some archived_row
  kept_online :
      (archive env4 "m" "e1" online).0 ≡ err (conflicting "published_entry_archive_forbidden")
  occupied : online.unique_values "m" "slug" "hello" ≡ some "e1"
  released : archived_db.unique_values "m" "slug" "hello" ≡ none
  -- The review of an archived entry goes on: it is published and its values are taken again.
  revived : revived_db.published_pointers "e1" ≡ some revived_pointer
  retaken : revived_db.unique_values "m" "slug" "hello" ≡ some "e1"
  refreshed : rebuild_unique_values env4 "m" "e1" created ≡ ok (tt, rebuilt)
  served : (serve_all calls no_content).entries "e1" ≡ some row_behind
  went_online : IsOnline ((serve approving in_review).revisions "r1")
  offline : (perform env4 unpublishes "m" "e1" "r1" online).1.published_pointers "e1" ≡ none

runs : Runs
unfolding resolve_entry_assets within_tx require_model_permission holds any contains get_model all
    create_entry create_revision put remove validate_relation_targets append_audit append_event
    delete_unique_values get_entry get_published get_revision insert_unique_values lock_entry
    replace_unique_values set_draft_pointer update_entry create create_draft_in_tx lock_schema
    lock_relation_models ensure_relation_models_locked check_locked write_revision_derivatives
    draft_revision new_entry_row occupy_values precheck_media perform submit approve unpublish
    workflow workflow_tx locate expected_revision check_media transition_target transition_revision
    move_pointer retire_published record_event create_workflow_event refresh_unique
    rebuild_unique_values published_values add_values set_published_pointer delete_published_pointer
    update update_tx open_draft updated_entry archive archive_tx serve serve_all
runs = record {
  approved = refl;
  refused = refl;
  updated = refl;
  archived = refl;
  archived_entry = refl;
  kept_online = refl;
  occupied = refl;
  released = refl;
  revived = refl;
  retaken = refl;
  refreshed = refl;
  served = refl;
  went_online = refl;
  offline = refl;
}

serve_all-IsValid_example : IsValid (serve_all calls no_content)
serve_all-IsValid_example = serve_all-IsValid calls no_content no_content-IsValid

perform-Outcome_example :
    (current : Entry) × (revision : Revision) × Outcome env3
      (transition_of approves)
      "m"
      "e1"
      "r1"
      in_review
      published_entry
      online
      current
      revision
perform-Outcome_example =
    perform-Outcome env3 approves "m" "e1" "r1" in_review published_entry runs.approved

perform-failed_example :
    ((perform env3 approves "m" "e1" "r1" created).1 ≡ created)
    ⊎ ((entry : Entry) × (current : Entry) × (revision : Revision) × Outcome env3
          (transition_of approves)
          "m"
          "e1"
          "r1"
          created
          entry
          (perform env3 approves "m" "e1" "r1" created).1
          current
          revision
        × (env3.resolve_assets entry.current_draft_revision_id
            ≡ some (conflicting "invalid_workflow_transition")))
perform-failed_example =
    perform-failed env3 approves "m" "e1" "r1" created (conflicting "invalid_workflow_transition")
      runs.refused

serve-ByApproval_example :
    IsOnline (in_review.revisions "r1")
    ⊎ ByApproval approving "r1" ((serve approving in_review).revisions "r1")
unfolding serve
serve-ByApproval_example = serve-ByApproval approving in_review "r1" runs.went_online

get_entry-total_example : (x : Entry) × Reads (serve_all calls no_content) "e1" row_behind x
get_entry-total_example =
    get_entry-total (serve_all calls no_content)
      (serve_all-IsValid calls no_content no_content-IsValid) "e1" row_behind runs.served

update-DraftWritten_example :
    (id : String) × (entry : EntrySummary) × (current : Revision) × (content : String)
    × (row : EntryRow) × (pointer : DraftPointer) × Opened
        (key_for id "e1" "m")
        "r1"
        online
        entry
        current
        row
        pointer
    × DraftWritten
        (key_for id "e1" "m")
        (draft_revision env4 (key_for id "e1" "m") (current.number + 1) content)
        (restated entry.status 4 row)
        online
        (update env4 "m" "e1" "r1" "world" online).1
    × (revised_entry
        ≡ updated_entry env4 entry
            (draft_revision env4 (key_for id "e1" "m") (current.number + 1) content))
update-DraftWritten_example =
    update-DraftWritten env4 "m" "e1" "r1" "world" online revised_entry runs.updated

update-workflow_status_example :
    (current : Revision) × (online.revisions "r1" ≡ some current)
    × (WorkflowStatus.published ≡ current.workflow_status)
    × (WorkflowStatus.draft ≡ WorkflowStatus.draft)
    × (◌≡◌ {A = Option Revision} none none)
update-workflow_status_example =
    update-workflow_status env4 "m" "e1" "r1" "world" online revised_entry runs.updated

archive-Archived_example : Archived env4 "m" "e1" created archived_db
archive-Archived_example = archive-Archived env4 "m" "e1" created runs.archived

archived-is_final_example :
    ((x : Error) × (update env4 "m" "e1" "r1" "world" archived_db ≡ (err x, archived_db)))
    × ((x : Error) × (archive env4 "m" "e1" archived_db ≡ (err x, archived_db)))
archived-is_final_example =
    archived-is_final env4 "m" "e1" "r1" "world" archived_db archived_row runs.archived_entry refl

rebuild_unique_values-row_example :
    (r : Rebuilt env4 "m" "e1" created rebuilt) × Replaced "m" "e1"
      (λ f v. names f v r.drafted || names f v r.published)
      created.unique_values
      rebuilt.unique_values
rebuild_unique_values-row_example =
    rebuild_unique_values-row env4 "m" "e1" created rebuilt runs.refreshed

abbrev hello : List UniqueValue
hello = record { field_id = "slug"; canonical_value = "hello" } ∷ []

abbrev world : List UniqueValue
world = record { field_id = "slug"; canonical_value = "world" } ∷ []

replace_unique_values-total_example :
    (t : UniqueTable) × (replace_unique_values "m" "e1"
        (add_values (add_values [] hello) world)
        no_content.unique_values
      ≡ ok t)
replace_unique_values-total_example =
    replace_unique_values-total "m" "e1" hello world no_content.unique_values (λ f v h. inl refl)

-- ===== src/Content/Drafts.antt =====
-- `UpdateEntry` and `ArchiveEntry` as a client sees them.
use golang_cms.Prelude.{
  ◌+◌, String, Bool, true, false, Option, none, some, is_empty_text, if◌then◌else◌, ◌≡◌, refl, ◌∙◌,
  sym, ap, inl, inr,
}
use golang_cms.AppError.{Error, validation_failed, Result, ok, err}
use golang_cms.Database.{within_tx}
use golang_cms.Content.Types.{
  WorkflowStatus, Revision, EntrySummary, Entry, EntryRow, DraftPointer, Db, is_archived,
}
use golang_cms.Content.Env.{Env, RevisionKey}
use golang_cms.Content.Ending.{Ending, unchanged, committed, tx-Ending}
use golang_cms.Content.Workflow.{resolve_entry_assets}
use golang_cms.Content.Drafting.{
  draft_revision, updated_entry, update_tx, update, archive_tx, archive,
}
use golang_cms.Content.Drafting.Steps.{restated}
use golang_cms.Content.Drafting.Written.{DraftWritten, update_tx-DraftWritten}
use golang_cms.Content.Drafting.Opened.{Opened}
use golang_cms.Content.Valid.Archived.{Archived, archive_tx-Archived}

-- The revision that an update writes.
abbrev pub key_for : String → String → String → RevisionKey
key_for revision_id entry_id model_id = record {
  id = revision_id;
  entry_id = entry_id;
  model_id = model_id;
}

-- How an update ends: without a new identifier, or as a transaction with one.
data UpdateEnding (env : Env) (m e base raw : String) (db : Db) (r : Result Entry) (db' : Db)
    : Type 0 where
  refused : (x : Error) → r ≡ err x → db' ≡ db → UpdateEnding env m e base raw db r db'
  ran :
      (id : String)
      → Ending env (update_tx env (key_for id e m) base raw) db r db'
      → UpdateEnding env m e base raw db r db'

update-Ending :
    (env : Env) (m e base raw : String) (db : Db)
    → let r = update env m e base raw db in UpdateEnding env m e base raw db r.0 r.1
unfolding update
update-Ending env m e base raw db = go (is_empty_text base) (env.new_id "rev_")
  where
    go :
        (b : Bool) (j : Result String)
        → let r : Result Entry × Db = if b then (err validation_failed, db) else elim j [
          | err x ↦ (err x, db)
          | ok revision_id ↦
              resolve_entry_assets env
                (within_tx env.commit (update_tx env (key_for revision_id e m) base raw) db)
        ] in
          UpdateEnding env m e base raw db r.0 r.1
    go true j = refused validation_failed refl refl
    go false (err x) = refused x refl refl
    go false (ok j) = ran j (tx-Ending env (update_tx env (key_for j e m) base raw) db)

-- An update that returns was given the entry's draft as its base, the entry was not archived and the
-- draft not under review. It has written a fresh revision with the next number in the state `draft`,
-- pointed the entry's draft to it, and left every other revision and every published pointer alone.
pub update-DraftWritten :
    (env : Env) (m e base raw : String) (db : Db) (result : Entry)
    → (update env m e base raw db).0 ≡ ok result
    → (id : String) × (entry : EntrySummary) × (current : Revision) × (content : String)
      × (row : EntryRow) × (pointer : DraftPointer) × Opened
          (key_for id e m)
          base
          db
          entry
          current
          row
          pointer
      × DraftWritten
          (key_for id e m)
          (draft_revision env (key_for id e m) (current.number + 1) content)
          (restated entry.status env.now row)
          db
          (update env m e base raw db).1
      × (result
          ≡ updated_entry env entry
              (draft_revision env (key_for id e m) (current.number + 1) content))
update-DraftWritten env m e base raw db result h = elim (update-Ending env m e base raw db) [
  | refused x k _ ↦ absurd (let l = sym k ∙ h in cc)
  | ran id (unchanged x k _) ↦ absurd (let l = sym k ∙ h in cc)
  | ran id (committed entry k (inr (x, r, _))) ↦ absurd (let l = sym r ∙ h in cc)
  | ran id (committed entry k (inl r)) ↦
      let same : entry ≡ result = cc in
      let (s, current, content, row, pointer, opened, done, q) =
        update_tx-DraftWritten env (key_for id e m) base raw db _ result
          (k ∙ ap (λ x. ok (x, (update env m e base raw db).1)) same) in
      (id, s, current, content, row, pointer, opened, done, q)
]

-- The entry that an update answers has a draft in the state `draft`, while its own workflow status is
-- still the one of the base revision, and it carries no published revision.
pub update-workflow_status :
    (env : Env) (m e base raw : String) (db : Db) (result : Entry)
    → (update env m e base raw db).0 ≡ ok result
    → (current : Revision) × (db.revisions base ≡ some current)
      × (result.workflow_status ≡ current.workflow_status)
      × (result.current_draft_revision.workflow_status ≡ WorkflowStatus.draft)
      × (result.current_published_revision ≡ none)
unfolding updated_entry draft_revision
update-workflow_status env m e base raw db result h =
    let (id, entry, current, content, row, pointer, opened, done, same) =
      update-DraftWritten env m e base raw db result h in
    (
      current,
      opened.based,
      ap (λ (x : Entry). x.workflow_status) same ∙ opened.stale,
      ap (λ (x : Entry). x.current_draft_revision.workflow_status) same,
      ap (λ (x : Entry). x.current_published_revision) same,
    )

-- How an archival ends.
data ArchiveEnding (env : Env) (m e : String) (db : Db) (r : Result (Unit {0})) (db' : Db)
    : Type 0 where
  not_archived : (x : Error) → r ≡ err x → db' ≡ db → ArchiveEnding env m e db r db'
  archived : r ≡ ok tt → archive_tx env m e db ≡ ok (tt, db') → ArchiveEnding env m e db r db'

archive-Ending :
    (env : Env) (m e : String) (db : Db)
    → let r = archive env m e db in ArchiveEnding env m e db r.0 r.1
unfolding archive within_tx
archive-Ending env m e db = go (archive_tx env m e db) refl env.commit
  where
    go :
        (w : Result (Unit {0} × Db))
        → archive_tx env m e db ≡ w
        → (c : Option Error)
        → let r : Result (Unit {0}) × Db = elim w [
          | err x ↦ (err x, db)
          | ok (a, s') ↦ elim c [ none ↦ (ok a, s') | some x ↦ (err x, db) ]
        ] in
          ArchiveEnding env m e db r.0 r.1
    go (err x) h c = not_archived x refl refl
    go (ok (tt, s')) h none = archived refl h
    go (ok (tt, s')) h (some x) = not_archived x refl refl

-- An archival that returns found the entry alive and without a published revision. It has set the
-- entry's status and time, released the unique values of the entry and no others, appended one audit
-- event, and left every other table alone.
pub archive-Archived :
    (env : Env) (m e : String) (db : Db)
    → (archive env m e db).0 ≡ ok tt
    → Archived env m e db (archive env m e db).1
archive-Archived env m e db h = elim (archive-Ending env m e db) [
  | not_archived x k _ ↦ absurd (let l = sym k ∙ h in cc)
  | archived _ k ↦ archive_tx-Archived env m e db _ k
]

-- Once an entry's row is archived, no update and no further archival of it succeeds, whoever calls,
-- and none changes a table.
pub archived-is_final :
    (env : Env) (m e base raw : String) (db : Db) (row : EntryRow)
    → db.entries e ≡ some row
    → is_archived row.status ≡ true
    → ((x : Error) × ((update env m e base raw db) ≡ (err x, db)))
      × ((x : Error) × ((archive env m e db) ≡ (err x, db)))
archived-is_final env m e base raw db row f g = (
  elim (update-Ending env m e base raw db) [
    | refused x k l ↦ (x, cc)
    | ran id (unchanged x k l) ↦ (x, cc)
    | ran id (committed entry k _) ↦ absurd (
        let (_, _, _, r, _, opened, _, _) =
          update_tx-DraftWritten env (key_for id e m) base raw db _ entry k in
        let same : row ≡ r = (let x = sym f ∙ opened.entry_row in cc) in cc (opened.not_archived))
  ],
  elim (archive-Ending env m e db) [
    | not_archived x k l ↦ (x, cc)
    | archived _ k ↦ absurd (
        let done = archive_tx-Archived env m e db _ k in
        let same : row ≡ done.row = (let x = sym f ∙ done.entry_row in cc) in cc (done.was_alive))
  ],
)

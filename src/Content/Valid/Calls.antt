-- ===== src/Content/Valid/Calls.antt =====
-- Every call of the content service that writes, and any sequence of them, keeps the invariant.
use golang_cms.Prelude.{
  ◌+◌, String, Bool, true, false, List, [], ◌∷◌, is_empty_text, if◌then◌else◌, ◌≡◌, refl, sym, inl,
  inr, subst,
}
use golang_cms.AppError.{validation_failed, Result, ok, err}
use golang_cms.Database.{within_tx, within_tx-keeps}
use golang_cms.Content.Types.{Revision, Entry, Db}
use golang_cms.Content.Env.{Env, RevisionKey}
use golang_cms.Content.Ending.{Ending, unchanged, committed, tx-Ending}
use golang_cms.Content.Review.{effective, perform-Ending}
use golang_cms.Content.Workflow.{workflow_tx, resolve_entry_assets}
use golang_cms.Content.Workflow.Actions.{Action, transition_of, perform}
use golang_cms.Content.Workflow.Outcome.{Outcome, workflow_tx-Outcome}
use golang_cms.Content.Drafting.{
  draft_revision, new_entry_row, create_draft_in_tx, create, update_tx, update, archive_tx, archive,
}
use golang_cms.Content.Drafting.Written.{update_tx-DraftWritten, create_draft_in_tx-DraftWritten}
use golang_cms.Content.Drafting.Steps.{restated}
use golang_cms.Content.Valid.{IsValid}
use golang_cms.Content.Valid.Drafted.{DraftWritten-IsValid}
use golang_cms.Content.Valid.Archived.{
  Archived, archive_tx-Archived, Archived-IsValid, Outcome-IsValid,
}

-- One call of the service, with what it is given.
pub data Call : Type 0 where
  creates : Env → String → String → Call
  updates : Env → String → String → String → String → Call
  archives : Env → String → String → Call
  reviews : Env → Action → String → String → String → Call

-- The tables behind a call.
unfoldable pub serve : Call → Db → Db
serve (creates env m raw) db = (create env m raw db).1
serve (updates env m e base raw) db = (update env m e base raw db).1
serve (archives env m e) db = (archive env m e db).1
serve (reviews env a m e rid) db = (perform env a m e rid db).1

unfoldable pub serve_all : List Call → Db → Db
serve_all [] db = db
serve_all (c ∷ cs) db = serve_all cs (serve c db)

create_draft_in_tx-IsValid :
    (env : Env) (key : RevisionKey) (raw : String) (db db' : Db) (result : Entry)
    → IsValid db
    → create_draft_in_tx env key raw db ≡ ok (result, db')
    → IsValid db'
unfolding draft_revision new_entry_row
create_draft_in_tx-IsValid env key raw db db' result valid h =
    let (content, absent, done, _) = create_draft_in_tx-DraftWritten env key raw db db' result h in
    DraftWritten-IsValid key (draft_revision env key 1 content) (new_entry_row env key) db db' valid
      done refl refl refl refl (inl absent)

update_tx-IsValid :
    (env : Env) (key : RevisionKey) (base raw : String) (db db' : Db) (result : Entry)
    → IsValid db
    → update_tx env key base raw db ≡ ok (result, db')
    → IsValid db'
unfolding draft_revision
update_tx-IsValid env key base raw db db' result valid h =
    let (entry, current, content, row, pointer, opened, done, _) =
      update_tx-DraftWritten env key base raw db db' result h in
    DraftWritten-IsValid key (draft_revision env key (current.number + 1) content)
      (restated entry.status env.now row) db db' valid done refl refl refl opened.of_model
      (inr (row, opened.entry_row, opened.of_model))

-- What holds before a call and behind its transaction holds behind the call.
module _ (P : Db → Type 0) (db : Db) (before : P db) where
  ended :
      (env : Env) (f : Db → Result (Entry × Db)) (r : Result Entry) (db' : Db)
      → ((entry : Entry) → f db ≡ ok (entry, db') → P db')
      → Ending env f db r db'
      → P db'
  ended env f r db' keeps (unchanged _ _ k) = subst P (sym k) before
  ended env f r db' keeps (committed entry k _) = keeps entry k

  pub create-keeps :
      (env : Env) (m raw : String)
      → ((key : RevisionKey) (entry : Entry) (db' : Db)
          → create_draft_in_tx env key raw db ≡ ok (entry, db')
          → P db')
      → P (create env m raw db).1
  unfolding create
  create-keeps env m raw keeps = go (env.new_id "ent_") (env.new_id "rev_")
    where
      go :
          (i j : Result String)
          → let r : Result Entry × Db = elim i [
            | err x ↦ (err x, db)
            | ok entry_id ↦ elim j [
              | err x ↦ (err x, db)
              | ok revision_id ↦
                  let key : RevisionKey = record {
                    id = revision_id;
                    entry_id = entry_id;
                    model_id = m;
                  } in
                  resolve_entry_assets env
                    (within_tx env.commit (create_draft_in_tx env key raw) db)
            ]
          ] in
            P r.1
      go (err x) j = before
      go (ok i) (err x) = before
      go (ok i) (ok j) =
          let key : RevisionKey = record { id = j; entry_id = i; model_id = m } in
          ended env (create_draft_in_tx env key raw) _ _ (λ entry k. keeps key entry _ k)
            (tx-Ending env (create_draft_in_tx env key raw) db)

  pub update-keeps :
      (env : Env) (m e base raw : String)
      → ((key : RevisionKey) (entry : Entry) (db' : Db)
          → update_tx env key base raw db ≡ ok (entry, db')
          → P db')
      → P (update env m e base raw db).1
  unfolding update
  update-keeps env m e base raw keeps = go (is_empty_text base) (env.new_id "rev_")
    where
      go :
          (b : Bool) (j : Result String)
          → let r : Result Entry × Db = if b then (err validation_failed, db) else elim j [
            | err x ↦ (err x, db)
            | ok revision_id ↦
                let key : RevisionKey = record { id = revision_id; entry_id = e; model_id = m } in
                resolve_entry_assets env (within_tx env.commit (update_tx env key base raw) db)
          ] in
            P r.1
      go true j = before
      go false (err x) = before
      go false (ok j) =
          let key : RevisionKey = record { id = j; entry_id = e; model_id = m } in
          ended env (update_tx env key base raw) _ _ (λ entry k. keeps key entry _ k)
            (tx-Ending env (update_tx env key base raw) db)

  pub archive-keeps :
      (env : Env) (m e : String)
      → ((db' : Db) → Archived env m e db db' → P db')
      → P (archive env m e db).1
  unfolding archive
  archive-keeps env m e keeps =
      within_tx-keeps P env.commit (archive_tx env m e) db before
        λ _ db' h. keeps db' (archive_tx-Archived env m e db db' h)

  pub perform-keeps :
      (env : Env) (a : Action) (m e rid : String)
      → ((entry current : Entry) (revision : Revision) (db' : Db)
          → Outcome env (transition_of (effective a)) m e rid db entry db' current revision
          → P db')
      → P (perform env a m e rid db).1
  perform-keeps env a m e rid keeps =
      ended env (workflow_tx env (transition_of (effective a)) m e rid) _ _
        (λ entry k.
          let (current, revision, done) =
            workflow_tx-Outcome env (transition_of (effective a)) m e rid db _ entry k in
          keeps entry current revision _ done)
        (perform-Ending env a m e rid db)

pub serve-IsValid : (c : Call) (db : Db) → IsValid db → IsValid (serve c db)
unfolding serve
serve-IsValid (creates env m raw) db valid =
    create-keeps IsValid db valid env m raw
      λ key entry db' h. create_draft_in_tx-IsValid env key raw db db' entry valid h
serve-IsValid (updates env m e base raw) db valid =
    update-keeps IsValid db valid env m e base raw
      λ key entry db' h. update_tx-IsValid env key base raw db db' entry valid h
serve-IsValid (archives env m e) db valid =
    archive-keeps IsValid db valid env m e λ db' done. Archived-IsValid env m e db db' valid done
serve-IsValid (reviews env a m e rid) db valid =
    perform-keeps IsValid db valid env a m e rid λ entry current revision db' done.
      Outcome-IsValid env (effective a) m e rid db db' entry current revision valid done

-- Any sequence of calls that create, update, archive, submit, approve, reject or unpublish, each with
-- its own caller, clock and environment, and whether it succeeds or fails, keeps the tables valid:
-- published pointers and published revisions match, each revision belongs to an entry of its model,
-- and each entry has a draft.
pub serve_all-IsValid : (calls : List Call) (db : Db) → IsValid db → IsValid (serve_all calls db)
unfolding serve_all
serve_all-IsValid [] db valid = valid
serve_all-IsValid (c ∷ cs) db valid = serve_all-IsValid cs (serve c db) (serve-IsValid c db valid)

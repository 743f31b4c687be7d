-- ===== src/Content/Drafting/Opened.antt =====
-- What `UpdateEntry` has found where it goes on to write.
use golang_cms.Prelude.{
  String, Bool, true, false, not, Option, none, some, ◌=s=◌, ◌≡◌, arith, eq_iff, ◌≢◌,
}
use golang_cms.AppError.{conflicting, ok, ok-bind, ok-guard, resource_not_found}
use golang_cms.Permission.Defs.{require_model_permission}
use golang_cms.Schema.{ContentModel}
use golang_cms.Content.Types.{
  WorkflowStatus, Revision, EntrySummary, EntryRow, DraftPointer, Db, is_archived, same_status,
}
use golang_cms.Content.Repository.{found, lock_entry, get_revision, validate_relation_targets}
use golang_cms.Content.Env.{Env, RevisionKey}
use golang_cms.Content.Workflow.Steps.{get_revision-ok}
use golang_cms.Content.Drafting.{lock_schema, open_draft}

-- What an update has found.
pub record Opened (key : RevisionKey) (base : String) (db : Db) (entry : EntrySummary)
    (current : Revision) (row : EntryRow) (pointer : DraftPointer) : Type 0 where
  pub locked : lock_entry db key.model_id key.entry_id ≡ ok entry
  pub entry_row : db.entries key.entry_id ≡ some row
  pub of_model : row.model_id ≡ key.model_id
  pub pointer_row : db.draft_pointers key.entry_id ≡ some pointer
  pub pointer_model : pointer.model_id ≡ key.model_id
  pub is_base : entry.current_draft_revision_id ≡ base
  pub based : db.revisions base ≡ some current
  pub editable : current.workflow_status ≢ WorkflowStatus.pending_review
  pub not_archived : is_archived row.status ≡ false
  pub same_row : entry.status ≡ row.status
  pub stale : entry.workflow_status ≡ current.workflow_status

found-row {ℓ} : {A : Type ℓ} (o : Option A) (a : A) → found o ≡ ok a → o ≡ some a
found-row none a h = absurd (cc)
found-row (some b) a h = cc

pub lock_entry-rows :
    (db : Db) (m e : String) (s : EntrySummary)
    → lock_entry db m e ≡ ok s
    → (row : EntryRow) × (pointer : DraftPointer) × (r : Revision) × (db.entries e ≡ some row)
      × (row.model_id ≡ m)
      × (db.draft_pointers e ≡ some pointer)
      × (pointer.model_id ≡ m)
      × (db.revisions pointer.revision_id ≡ some r)
      × (s.current_draft_revision_id ≡ pointer.revision_id)
      × (s.status ≡ row.status)
      × (s.workflow_status ≡ r.workflow_status)
unfolding lock_entry
lock_entry-rows db m e s h = ok-bind (found (db.entries e)) _ h λ row e1 k1.
    ok-guard (row.model_id =s= m) resource_not_found _ k1 λ e2 k2.
      ok-bind (found (db.draft_pointers e)) _ k2 λ pointer e3 k3.
        ok-guard (pointer.model_id =s= m) resource_not_found _ k3 λ e4 k4.
          ok-bind (found (db.revisions pointer.revision_id)) _ k4 λ r e5 k5. (
            row,
            pointer,
            r,
            found-row _ row e1,
            (eq_iff row.model_id m).0 e2,
            found-row _ pointer e3,
            (eq_iff pointer.model_id m).0 e4,
            found-row _ r e5,
            cc,
            cc,
            cc,
          )

not-true : (b : Bool) → not b ≡ true → b ≡ false
not-true b h = ground arith

not_pending :
    (s : WorkflowStatus)
    → not (same_status s WorkflowStatus.pending_review) ≡ true
    → s ≢ WorkflowStatus.pending_review
not_pending s h e = ground arith

pub open_draft-Opened :
    (env : Env) (key : RevisionKey) (base raw : String) (db : Db) (entry : EntrySummary)
    (model : ContentModel) (content : String) (current : Revision)
    → open_draft env key base raw db ≡ ok (entry, (model, (content, current)))
    → (row : EntryRow) × (pointer : DraftPointer) × Opened key base db entry current row pointer
unfolding open_draft
open_draft-Opened env key base raw db entry model content current h =
    ok-bind (require_model_permission env.principal key.model_id "content.update") _ h λ _ e1 k1.
      ok-bind (lock_schema env key.model_id key raw db) _ k1 λ (_, c) e2 k2.
        ok-bind (lock_entry db key.model_id key.entry_id) _ k2 λ s e3 k3.
          ok-guard (not (is_archived s.status)) (conflicting "resource_archived") _ k3 λ e4 k4.
            ok-guard (s.current_draft_revision_id =s= base) (conflicting "draft_revision_conflict")
              _ k4
              λ e5 k5. ok-bind (env.rules.derivatives c key _) _ k5 λ (_, relations) e6 k6.
                ok-bind (validate_relation_targets db relations) _ k6 λ _ e7 k7.
                  ok-bind (get_revision db key.model_id key.entry_id s.current_draft_revision_id) _
                    k7
                    λ r e8 k8.
                      ok-guard (not (same_status r.workflow_status WorkflowStatus.pending_review))
                        (conflicting "invalid_workflow_transition") _ k8
                        λ e9 k9.
                          let (row, pointer, r', f1, f2, f3, f4, f5, f6, f7, f8) =
                            lock_entry-rows db key.model_id key.entry_id s e3 in
                          let (g1, _, _) = get_revision-ok db key.model_id key.entry_id _ r e8 in
                          let s_is : s ≡ entry = cc in
                          let r_is : r ≡ current = cc in
                          let named : s.current_draft_revision_id ≡ base = (eq_iff _ _).0 e5 in
                          let alive : is_archived s.status ≡ false = not-true _ e4 in
                          (
                            row,
                            pointer,
                            record {
                              locked = cc;
                              entry_row = f1;
                              of_model = f2;
                              pointer_row = f3;
                              pointer_model = f4;
                              is_base = cc;
                              based = cc;
                              editable = λ e. not_pending r.workflow_status e9 (cc);
                              not_archived = cc;
                              same_row = cc;
                              stale = cc;
                            },
                          )

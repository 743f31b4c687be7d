-- ===== src/Content/Invariant.antt =====
-- The published pointers of internal/content: an entry's published revision, and no other revision of
-- the entry, is in the state `published`.
pub mod Kept
use golang_cms.Prelude.{
  ℕ, String, true, false, ◌&&◌, Option, none, some, ◌=s=◌, Table, ◌≡◌, refl, ◌∙◌, sym, ap, arith,
  eq_iff, ◌≢◌, inl, inr, subst, Bool-cases, =s=_ne,
}
use golang_cms.AppError.{ok, ok-bind, ok-guard, resource_not_found}
use golang_cms.Content.Types.{
  EventType, WorkflowStatus, Revision, EntrySummary, Entry, Db, PublishedPointer, approved,
}
use golang_cms.Content.Repository.{
  lock_entry, get_revision, get_entry, transitioned, map_option, get_published, found,
}
use golang_cms.Content.Env.{Env}
use golang_cms.Content.Workflow.{
  Transition, is_approved, expected_revision, or_empty, submitter_of, submitted_at_of,
}
use golang_cms.Content.Workflow.Actions.{
  Action, submits, approves, unpublishes, rejects, transition_of,
}
use golang_cms.Content.Workflow.Steps.{is_retired}
use golang_cms.Content.Workflow.Effect.{pointer_after, pointer_to}
use golang_cms.Content.Workflow.Outcome.{Outcome, revised}

-- A published revision of an entry behind its pointer.
pub record IsLive (revisions : Table Revision) (entry_id revision_id : String) : Type 0 where
  pub revision : Revision
  pub row : revisions revision_id ≡ some revision
  pub of_entry : revision.entry_id ≡ entry_id
  pub published : revision.workflow_status ≡ WorkflowStatus.published

-- Published pointers and published revisions belong together one to one.
pub record IsConsistent (db : Db) : Type 0 where
  pub pointed :
      (e : String) (p : PublishedPointer)
      → db.published_pointers e ≡ some p
      → IsLive db.revisions e p.revision_id
  pub live :
      (j : String) (r : Revision)
      → db.revisions j ≡ some r
      → r.workflow_status ≡ WorkflowStatus.published
      → map_option (λ (p : PublishedPointer). p.revision_id) (db.published_pointers r.entry_id)
        ≡ some j

lock_entry-published :
    (db : Db) (m e : String) (s : EntrySummary)
    → lock_entry db m e ≡ ok s
    → s.current_published_revision_id
      ≡ map_option (λ (p : PublishedPointer). p.revision_id) (db.published_pointers e)
unfolding lock_entry
lock_entry-published db m e s h = ok-bind (found (db.entries e)) _ h λ row e1 k1.
    ok-guard (row.model_id =s= m) resource_not_found _ k1 λ e2 k2.
      ok-bind (found (db.draft_pointers e)) _ k2 λ pointer e3 k3.
        ok-guard (pointer.model_id =s= m) resource_not_found _ k3
          λ e4 k4. ok-bind (found (db.revisions pointer.revision_id)) _ k4 λ r e5 k5. cc

pub get_entry-published :
    (db : Db) (m e : String) (current : Entry)
    → get_entry db m e ≡ ok current
    → current.current_published_revision_id
      ≡ map_option (λ (p : PublishedPointer). p.revision_id) (db.published_pointers e)
unfolding get_entry
get_entry-published db m e current h = ok-bind (lock_entry db m e) _ h λ s e1 k1.
    ok-bind (get_revision db m e s.current_draft_revision_id) _ k1 λ draft e2 k2.
      ok-bind (get_published db m e s.current_published_revision_id) _ k2 λ published e3 k3.
        let same : s ≡ current.summary = cc in cc (lock_entry-published db m e s e1)

pub map_option-some :
    {A B : Type 0} (f : A → B) (o : Option A) (b : B)
    → map_option f o ≡ some b
    → (a : A) × (o ≡ some a) × (f a ≡ b)
map_option-some f none b h = absurd (cc)
map_option-some f (some a) b h = (a, refl, cc)

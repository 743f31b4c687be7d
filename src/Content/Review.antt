-- ===== src/Content/Review.antt =====
-- The calls of the review workflow as a client sees them: what a call that succeeds has done, what one
-- that fails leaves, and what any sequence of calls keeps.
use golang_cms.Prelude.{
  String, Bool, true, false, ◌||◌, ltb, is_empty_text, some, if◌then◌else◌, trim_space, rune_count,
  ◌≡◌, refl, ◌∙◌, sym, ap, ◌⊎◌, inl, inr, subst,
}
use golang_cms.AppError.{Error, validation_failed, Result, ok, err}
use golang_cms.Database.{within_tx}
use golang_cms.Identity.Normalize.{holds}
use golang_cms.Permission.Defs.{require_model_permission}
use golang_cms.Content.Types.{Revision, Entry, Db}
use golang_cms.Content.Env.{Env}
use golang_cms.Content.Ending.{Ending, unchanged, committed, tx-Ending}
use golang_cms.Content.Invariant.{IsConsistent}
use golang_cms.Content.Invariant.Kept.{Outcome-IsConsistent}
use golang_cms.Content.Workflow.{Transition, workflow_tx, resolve_entry_assets, workflow}
use golang_cms.Content.Workflow.Actions.{
  Action, submits, approves, unpublishes, rejects, transition_of, submit, approve, reject,
  unpublish, perform,
}
use golang_cms.Content.Workflow.Outcome.{Outcome, workflow_tx-Outcome}

workflow-Ending :
    (env : Env) (t : Transition) (m e rid : String) (db : Db)
    → let r = workflow env t m e rid db in Ending env (workflow_tx env t m e rid) db r.0 r.1
unfolding workflow
workflow-Ending env t m e rid db = go (is_empty_text rid)
  where
    go :
        (b : Bool)
        → let r =
            if b
            then (err validation_failed, db)
            else resolve_entry_assets env (within_tx env.commit (workflow_tx env t m e rid) db) in
          Ending env (workflow_tx env t m e rid) db r.0 r.1
    go true = unchanged validation_failed refl refl
    go false = tx-Ending env (workflow_tx env t m e rid) db

-- The transition that a call makes; the reason of a rejection loses its outer blanks.
abbrev pub effective : Action → Action
effective (rejects reason) = rejects (trim_space reason)
effective a = a

approve-Ending :
    (env : Env) (m e rid : String) (db : Db)
    → let r = approve env m e rid db in
      Ending env (workflow_tx env (transition_of approves) m e rid) db r.0 r.1
unfolding approve
approve-Ending env m e rid db = go (require_model_permission env.principal m "content.review")
  where
    go :
        (p : Result (Unit {0}))
        → let r : Result Entry × Db = elim p [
          | err x ↦ (err x, db)
          | ok _ ↦ workflow env (transition_of approves) m e rid db
        ] in
          Ending env (workflow_tx env (transition_of approves) m e rid) db r.0 r.1
    go (err x) = unchanged x refl refl
    go (ok _) = workflow-Ending env (transition_of approves) m e rid db

reject-Ending :
    (env : Env) (reason m e rid : String) (db : Db)
    → let r = reject env m e rid reason db in
      Ending env (workflow_tx env (transition_of (effective (rejects reason))) m e rid) db r.0 r.1
unfolding reject
reject-Ending env reason m e rid db =
    go (ltb (rune_count (trim_space reason)) 1 || ltb 1000 (rune_count (trim_space reason)))
  where
    go :
        (b : Bool)
        → let r =
            if b
            then (err validation_failed, db)
            else workflow env (transition_of (effective (rejects reason))) m e rid db in
          Ending env
            (workflow_tx env (transition_of (effective (rejects reason))) m e rid)
            db
            r.0
            r.1
    go true = unchanged validation_failed refl refl
    go false = workflow-Ending env (transition_of (effective (rejects reason))) m e rid db

pub perform-Ending :
    (env : Env) (a : Action) (m e rid : String) (db : Db)
    → let r = perform env a m e rid db in
      Ending env (workflow_tx env (transition_of (effective a)) m e rid) db r.0 r.1
unfolding perform submit unpublish
perform-Ending env submits m e rid db = workflow-Ending env (transition_of submits) m e rid db
perform-Ending env approves m e rid db = approve-Ending env m e rid db
perform-Ending env unpublishes m e rid db =
    workflow-Ending env (transition_of unpublishes) m e rid db
perform-Ending env (rejects reason) m e rid db = reject-Ending env reason m e rid db

-- A call of the review workflow that returns an entry has the outcome of its transition: the revision
-- was in the state that the transition starts from and the caller held its permission, and each table
-- is as `Outcome` says.
pub perform-Outcome :
    (env : Env) (a : Action) (m e rid : String) (db : Db) (result : Entry)
    → (perform env a m e rid db).0 ≡ ok result
    → (current : Entry) × (revision : Revision) × Outcome env
        (transition_of (effective a))
        m
        e
        rid
        db
        result
        (perform env a m e rid db).1
        current
        revision
perform-Outcome env a m e rid db result h = elim (perform-Ending env a m e rid db) [
  | unchanged x k _ ↦ absurd (let l = sym k ∙ h in cc)
  | committed entry k (inl r) ↦
      let same : entry ≡ result = cc in
      workflow_tx-Outcome env (transition_of (effective a)) m e rid db _ result
        (k ∙ ap (λ x. ok (x, (perform env a m e rid db).1)) same)
  | committed entry k (inr (x, r, _)) ↦ absurd (let l = sym r ∙ h in cc)
]

-- A call of the review workflow that fails leaves every table as it was, except where its transaction
-- had the outcome of its transition, which then stays, and the resolution of the assets of the entry's
-- draft behind it failed with that error.
pub perform-failed :
    (env : Env) (a : Action) (m e rid : String) (db : Db) (x : Error)
    → (perform env a m e rid db).0 ≡ err x
    → ((perform env a m e rid db).1 ≡ db)
      ⊎ ((entry : Entry) × (current : Entry) × (revision : Revision) × Outcome env
            (transition_of (effective a))
            m
            e
            rid
            db
            entry
            (perform env a m e rid db).1
            current
            revision
          × (env.resolve_assets entry.current_draft_revision_id ≡ some x))
perform-failed env a m e rid db x h = elim (perform-Ending env a m e rid db) [
  | unchanged _ _ k ↦ inl k
  | committed entry k (inl r) ↦ absurd (let l = sym r ∙ h in cc)
  | committed entry k (inr (y, r, f)) ↦
      let (current, revision, done) =
        workflow_tx-Outcome env (transition_of (effective a)) m e rid db _ entry k in
      inr (entry, current, revision, done, f ∙ (let l = sym r ∙ h in cc))
]

-- A call of the review workflow, whether it succeeds or fails, keeps published pointers and published
-- revisions together one to one.
pub perform-IsConsistent :
    (env : Env) (a : Action) (m e rid : String) (db : Db)
    → IsConsistent db
    → IsConsistent (perform env a m e rid db).1
perform-IsConsistent env a m e rid db valid = elim (perform-Ending env a m e rid db) [
  | unchanged _ _ k ↦ subst IsConsistent (sym k) valid
  | committed entry k _ ↦
      let (current, revision, done) =
        workflow_tx-Outcome env (transition_of (effective a)) m e rid db _ entry k in
      Outcome-IsConsistent env (effective a) m e rid db _ entry current revision valid done
]

-- A caller without `content.review` approves nothing.
pub approve-refused :
    (env : Env) (m e rid : String) (db : Db)
    → holds env.principal.model_permissions m "content.review" ≡ false
    → (approve env m e rid db).1 ≡ db
unfolding approve require_model_permission
approve-refused env m e rid db h = rw (approve, require_model_permission, h) refl

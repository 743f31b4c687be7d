-- ===== src/Content/Valid/Published.antt =====
-- How a revision comes to be published.
use golang_cms.Prelude.{
  ◌+◌, String, true, false, ◌&&◌, Option, none, some, ◌=s=◌, ◌≡◌, refl, ◌∙◌, sym, ap, subst, arith,
  eq_iff, ◌≢◌, ◌⊎◌, inl, inr, Bool-cases, Table, put_self, put_other, =s=_ne,
}
use golang_cms.Identity.Normalize.{holds}
use golang_cms.Content.Types.{WorkflowStatus, Revision, Entry, EntryRow, Db}
use golang_cms.Content.Env.{Env, RevisionKey}
use golang_cms.Content.Repository.{map_option}
use golang_cms.Content.Review.{effective, approve-refused}
use golang_cms.Content.Workflow.{Transition, is_approved}
use golang_cms.Content.Workflow.Actions.{
  Action, submits, approves, unpublishes, rejects, transition_of, perform,
}
use golang_cms.Content.Workflow.Outcome.{Outcome, revised}
use golang_cms.Content.Workflow.Steps.{is_retired}
use golang_cms.Content.Drafting.{draft_revision, new_entry_row}
use golang_cms.Content.Drafting.Steps.{restated}
use golang_cms.Content.Drafting.Written.{
  DraftWritten, update_tx-DraftWritten, create_draft_in_tx-DraftWritten,
}
use golang_cms.Content.Valid.Calls.{
  Call, creates, updates, archives, reviews, serve, create-keeps, update-keeps, archive-keeps,
  perform-keeps,
}

-- A row is a published revision.
abbrev pub IsOnline : Option Revision → Type 0
IsOnline none = ⊥
IsOnline (some r) = r.workflow_status ≡ WorkflowStatus.published

-- The call approves the revision, for a caller who may review and publish in its model.
abbrev pub ByApproval : Call → String → Option Revision → Type 0
ByApproval (reviews env approves m e rid) j (some r) =
    (rid ≡ j)
    × (r.model_id ≡ m)
    × (holds env.principal.model_permissions m "content.review" ≡ true)
    × (holds env.principal.model_permissions m "content.publish" ≡ true)
ByApproval _ j o = ⊥

-- The tables behind a call have no published revision but those before it and one that it approves.
abbrev Publishes : Call → Db → Db → Type 0
Publishes c db db' =
    (j : String)
    → IsOnline (db'.revisions j)
    → IsOnline (db.revisions j) ⊎ ByApproval c j (db'.revisions j)

Publishes-same : (c : Call) (db db' : Db) → db'.revisions ≡ db.revisions → Publishes c db db'
Publishes-same c db db' same j live = inl (subst (λ (t : Table Revision). IsOnline (t j)) same live)

DraftWritten-Publishes :
    (c : Call) (key : RevisionKey) (revision : Revision) (row : EntryRow) (db db' : Db)
    → DraftWritten key revision row db db'
    → revision.workflow_status ≡ WorkflowStatus.draft
    → Publishes c db db'
DraftWritten-Publishes c key revision row db db' done draft j live =
    elim (Bool-cases (key.id =s= j)) [
      | inl same ↦
          let p = (eq_iff key.id j).0 same in
          let new : db'.revisions j ≡ some revision =
            sym (ap db'.revisions p)
            ∙ (ap (λ (t : Table Revision). t key.id) done.revisions
                ∙ put_self key.id revision db.revisions) in
          absurd (let k = subst IsOnline new live in cc (draft))
      | inr differ ↦ inl (
          subst IsOnline
            (ap (λ (t : Table Revision). t j) done.revisions
              ∙ put_other key.id j revision db.revisions (=s=_ne key.id j differ))
            live)
    ]

module _ (env : Env) (t : Transition) (m e rid : String) (db db' : Db) (result current : Entry)
    (target : Revision) (done : Outcome env t m e rid db result db' current target) where
  abbrev after : String → Revision → Revision
  after j = revised env t rid current.current_published_revision_id j

  other_row :
      (j : String) (o : Option Revision)
      → (rid =s= j) ≡ false
      → IsOnline (map_option (after j) o)
      → IsOnline o
  other_row j none differ live = live
  other_row j (some r) differ live =
      elim (Bool-cases
        (is_approved t.event_type && is_retired current.current_published_revision_id rid j)) [
          | inl off ↦ absurd (let k = rw (differ, off) at live in cc)
          | inr on ↦ rw (differ, on) at live
        ]

  target_row :
      (j : String) (o : Option Revision)
      → (rid =s= j) ≡ true
      → IsOnline (map_option (after j) o)
      → t.to ≡ WorkflowStatus.published
  target_row j none same live = absurd live
  target_row j (some r) same live = rw same at live

  -- A revision that is published behind the action was so before, or the action published it.
  published_by :
      (j : String)
      → IsOnline (db'.revisions j)
      → IsOnline (db.revisions j) ⊎ ((rid ≡ j) × (t.to ≡ WorkflowStatus.published))
  published_by j live =
      let live2 = subst IsOnline (done.rows j) live in
      elim (Bool-cases (rid =s= j)) [
        | inl same ↦ inr ((eq_iff rid j).0 same, target_row j (db.revisions j) same live2)
        | inr differ ↦ inl (other_row j (db.revisions j) differ live2)
      ]

  kept_model : (j : String) (r : Revision) → (after j r).model_id ≡ r.model_id
  kept_model j r = ground arith

  target_behind :
      (j : String) → rid ≡ j → (r : Revision) × (db'.revisions j ≡ some r) × (r.model_id ≡ m)
  target_behind j p =
      let row : db.revisions j ≡ some target = sym (ap db.revisions p) ∙ done.located.row in
      (
        after j target,
        done.rows j ∙ ap (map_option (after j)) row,
        kept_model j target ∙ done.located.of_model,
      )

-- An action that does not publish.
idle :
    (c : Call) (env : Env) (t : Transition) (m e rid : String) (db db' : Db)
    (result current : Entry) (target : Revision)
    → Outcome env t m e rid db result db' current target
    → t.to ≢ WorkflowStatus.published
    → Publishes c db db'
idle c env t m e rid db db' result current target done ne j live =
    elim (published_by env t m e rid db db' result current target done j live) [
      | inl old ↦ inl old
      | inr (_, k) ↦ absurd (ne k)
    ]

approved_by :
    (env : Env) (m e rid : String) (db db' : Db) (result current : Entry) (target : Revision)
    → holds env.principal.model_permissions m "content.review" ≡ true
    → Outcome env (transition_of approves) m e rid db result db' current target
    → Publishes (reviews env approves m e rid) db db'
approved_by env m e rid db db' result current target may done j live =
    let t = transition_of approves in
    elim (published_by env t m e rid db db' result current target done j live) [
      | inl old ↦ inl old
      | inr (p, _) ↦
          let (r, row, model) = target_behind env t m e rid db db' result current target done j p in
          inr (
            subst (ByApproval (reviews env approves m e rid) j) (sym row)
              (p, model, may, done.located.permitted))
    ]

perform-Publishes :
    (env : Env) (a : Action) (m e rid : String) (db : Db)
    → Publishes (reviews env a m e rid) db (perform env a m e rid db).1
perform-Publishes env submits m e rid db =
    perform-keeps (Publishes (reviews env submits m e rid) db) db (λ j live. inl live) env submits m
      e rid
      λ x current target db' done.
        idle (reviews env submits m e rid) env (transition_of submits) m e rid db db' x current
          target done (λ k. cc)
perform-Publishes env unpublishes m e rid db =
    perform-keeps (Publishes (reviews env unpublishes m e rid) db) db (λ j live. inl live) env
      unpublishes m e rid
      λ x current target db' done.
        idle (reviews env unpublishes m e rid) env (transition_of unpublishes) m e rid db db' x
          current target done (λ k. cc)
perform-Publishes env (rejects reason) m e rid db =
    perform-keeps (Publishes (reviews env (rejects reason) m e rid) db) db (λ j live. inl live) env
      (rejects reason) m e rid
      λ x current target db' done.
        idle (reviews env (rejects reason) m e rid) env (transition_of (effective (rejects reason)))
          m e rid db db' x current target done (λ k. cc)
perform-Publishes env approves m e rid db =
    elim (Bool-cases (holds env.principal.model_permissions m "content.review")) [
      | inl may ↦
          perform-keeps (Publishes (reviews env approves m e rid) db) db (λ j live. inl live) env
            approves m e rid
            λ x current target db' done. approved_by env m e rid db db' x current target may done
      | inr lacks ↦
          Publishes-same (reviews env approves m e rid) db (perform env approves m e rid db).1
            (unfold perform in ap (λ (d : Db). d.revisions) (approve-refused env m e rid db lacks))
    ]

-- A revision that is published behind a call of the content service that creates, updates, archives or
-- reviews, whatever it answers, was published before, or the call approves that revision and its caller
-- holds both `content.review` and `content.publish` on the revision's model.
pub serve-ByApproval :
    (c : Call) (db : Db) (j : String)
    → IsOnline ((serve c db).revisions j)
    → IsOnline (db.revisions j) ⊎ ByApproval c j ((serve c db).revisions j)
unfolding serve draft_revision
serve-ByApproval (creates env m raw) db =
    create-keeps (Publishes (creates env m raw) db) db (λ j live. inl live) env m raw
      λ key entry db' h.
        let (content, _, done, _) = create_draft_in_tx-DraftWritten env key raw db db' entry h in
        DraftWritten-Publishes (creates env m raw) key (draft_revision env key 1 content)
          (new_entry_row env key) db db' done refl
serve-ByApproval (updates env m e base raw) db =
    update-keeps (Publishes (updates env m e base raw) db) db (λ j live. inl live) env m e base raw
      λ key x db' h.
        let (entry, current, content, row, _, _, done, _) =
          update_tx-DraftWritten env key base raw db db' x h in
        DraftWritten-Publishes (updates env m e base raw) key
          (draft_revision env key (current.number + 1) content) (restated entry.status env.now row)
          db db' done refl
serve-ByApproval (archives env m e) db =
    archive-keeps (Publishes (archives env m e) db) db (λ j live. inl live) env m e
      λ db' done. Publishes-same (archives env m e) db db' done.revisions
serve-ByApproval (reviews env a m e rid) db = perform-Publishes env a m e rid db

-- ===== src/Content/Invariant/Kept.antt =====
-- The review workflow keeps published pointers and published revisions together.
use golang_cms.Prelude.{
  ℕ, String, true, false, ◌&&◌, Option, none, some, ◌=s=◌, ◌≡◌, refl, ◌∙◌, sym, ap, arith, eq_iff,
  ◌≢◌, inl, inr, subst, Bool-cases, =s=_ne,
}
use golang_cms.Content.Types.{
  EventType, WorkflowStatus, Revision, Entry, Db, PublishedPointer, approved,
}
use golang_cms.Content.Repository.{transitioned, map_option}
use golang_cms.Content.Env.{Env}
use golang_cms.Content.Workflow.{
  Transition, is_approved, expected_revision, or_empty, submitter_of, submitted_at_of,
}
use golang_cms.Content.Workflow.Actions.{
  Action, submits, approves, unpublishes, rejects, transition_of,
}
use golang_cms.Content.Workflow.Steps.{is_retired}
use golang_cms.Content.Workflow.Effect.{pointer_after, pointer_to}
use golang_cms.Content.Workflow.Outcome.{Outcome, revised}
use golang_cms.Content.Invariant.{IsLive, IsConsistent, get_entry-published, map_option-some}

is_retired-some :
    (old : Option String) (rid j : String)
    → is_retired old rid j ≡ true
    → (old ≡ some j) × (rid ≢ j)
is_retired-some none rid j h = absurd (cc)
is_retired-some (some o) rid j h = ground (arith, eq_iff o rid, eq_iff o j)

some-is_retired :
    (old : Option String) (rid j : String) → old ≡ some j → rid ≢ j → is_retired old rid j ≡ true
some-is_retired none rid j h ne = absurd (cc)
some-is_retired (some o) rid j h ne = ground (arith, eq_iff o rid, eq_iff o j)

pointer_to-revision_id :
    (m rid : String) (at : ℕ) (o : Option PublishedPointer)
    → (pointer_to m rid at o).revision_id ≡ rid
pointer_to-revision_id m rid at none = refl
pointer_to-revision_id m rid at (some p) = refl

expected_unpublished :
    (t : Transition) (c : Entry)
    → t.event_type ≡ EventType.unpublished
    → t.draft_pointer ≡ false
    → expected_revision t c.summary c ≡ or_empty c.current_published_revision_id
unfolding expected_revision
expected_unpublished t c is draft = rw (draft, is) refl

-- What an action does to the published pointer.
data Effect (t : Transition) : Type 0 where
  sets : t.event_type ≡ approved → t.to ≡ WorkflowStatus.published → Effect t
  clears :
      t.event_type ≡ EventType.unpublished
      → t.to ≢ WorkflowStatus.published
      → t.draft_pointer ≡ false
      → Effect t
  leaves :
      ((m rid : String) (at : ℕ) (p : Option PublishedPointer)
        → pointer_after t.event_type m rid at p ≡ p)
      → t.from ≢ WorkflowStatus.published
      → t.to ≢ WorkflowStatus.published
      → is_approved t.event_type ≡ false
      → Effect t

Effect-of : (a : Action) → Effect (transition_of a)
Effect-of submits = leaves (λ m rid at p. refl) (λ e. cc) (λ e. cc) refl
Effect-of approves = sets refl refl
Effect-of unpublishes = clears refl (λ e. cc) refl
Effect-of (rejects reason) = leaves (λ m rid at p. refl) (λ e. cc) (λ e. cc) refl

module _ (env : Env) (a : Action) (m e rid : String) (db db' : Db) (result current : Entry)
    (target : Revision) (valid : IsConsistent db)
    (done : Outcome env (transition_of a) m e rid db result db' current target) where
  abbrev old : Option String
  old = current.current_published_revision_id

  old-pointer : old ≡ map_option (λ (p : PublishedPointer). p.revision_id) (db.published_pointers e)
  old-pointer = get_entry-published db m e current done.located.read

  -- A revision of another entry, or one that the action does not touch.
  untouched :
      (j : String) (r : Revision)
      → db.revisions j ≡ some r
      → rid ≢ j
      → (is_approved (transition_of a).event_type && is_retired old rid j) ≡ false
      → db'.revisions j ≡ some r
  untouched j r f ne idle =
      let differ : (rid =s= j) ≡ false = ground (arith, eq_iff rid j) in
      done.rows j ∙ rw f (rw differ (rw idle refl))

  other_entry :
      (j : String) (r : Revision)
      → db.revisions j ≡ some r
      → r.entry_id ≢ e
      → db'.revisions j ≡ some r
  other_entry j r f ne =
      untouched j r f (λ same. ne (cc (done.located.row, done.located.of_entry)))
        (elim (Bool-cases (is_retired old rid j)) [
          | inr idle ↦ rw idle (ground arith)
          | inl retired ↦
              let (q, e1, e2) =
                map_option-some (λ (p : PublishedPointer). p.revision_id) (db.published_pointers e)
                  j (sym old-pointer ∙ (is_retired-some old rid j retired).0) in
              let l = valid.pointed e q e1 in absurd (ne (cc (l.row, l.of_entry)))
        ])

  -- The pointer of another entry.
  pointed_other :
      (i : String) (p : PublishedPointer)
      → e ≢ i
      → db'.published_pointers i ≡ some p
      → IsLive db'.revisions i p.revision_id
  pointed_other i p ne h =
      let differ : (e =s= i) ≡ false = ground (arith, eq_iff e i) in
      let before : db.published_pointers i ≡ some p = sym (done.pointers i ∙ rw differ refl) ∙ h in
      let l = valid.pointed i p before in
      record {
        revision = l.revision;
        row = other_entry p.revision_id l.revision l.row (λ same. ne (cc (l.of_entry)));
        of_entry = l.of_entry;
        published = l.published;
      }

  target_row :
      db'.revisions rid
      ≡ some (
          transitioned target
            (transition_of a).to
            (submitter_of env (transition_of a))
            (submitted_at_of env (transition_of a)))
  target_row =
      let same : (rid =s= rid) ≡ true = ground (arith, eq_iff rid rid) in
      done.rows rid ∙ rw done.located.row (rw same refl)

  pointer_row :
      db'.published_pointers e
      ≡ pointer_after (transition_of a).event_type m rid env.now (db.published_pointers e)
  pointer_row =
      let same : (e =s= e) ≡ true = ground (arith, eq_iff e e) in done.pointers e ∙ rw same refl

  pointed_same :
      (p : PublishedPointer)
      → db'.published_pointers e ≡ some p
      → Effect (transition_of a)
      → IsLive db'.revisions e p.revision_id
  pointed_same p h (sets is to) =
      let k : some (pointer_to m rid env.now (db.published_pointers e)) ≡ some p =
        sym (pointer_row ∙ ap (λ x. pointer_after x m rid env.now (db.published_pointers e)) is)
        ∙ h in
      let named : rid ≡ p.revision_id =
        sym (pointer_to-revision_id m rid env.now (db.published_pointers e))
        ∙ ap (λ (x : Option PublishedPointer). elim x [ none ↦ rid | some q ↦ q.revision_id ]) k in
      subst (λ x. IsLive db'.revisions e x) named
        (record {
          revision =
              transitioned target (transition_of a).to (submitter_of env (transition_of a))
                (submitted_at_of env (transition_of a));
          row = target_row;
          of_entry = done.located.of_entry;
          published = to;
        })
  pointed_same p h (clears is to draft) = absurd (
      let k =
        sym (pointer_row ∙ ap (λ x. pointer_after x m rid env.now (db.published_pointers e)) is)
        ∙ h in
      cc)
  pointed_same p h (leaves same from to idle) =
      let before : db.published_pointers e ≡ some p =
        sym (pointer_row ∙ same m rid env.now (db.published_pointers e)) ∙ h in
      let l = valid.pointed e p before in
      record {
        revision = l.revision;
        row =
            untouched p.revision_id l.revision l.row
              (λ x. from (cc (l.row, l.published, done.located.row, done.located.starts)))
              (rw idle refl);
        of_entry = l.of_entry;
        published = l.published;
      }

  abbrev pointed_revision : Option PublishedPointer → Option String
  pointed_revision = map_option (λ p. p.revision_id)

  -- A published revision that the action does not write keeps its pointer.
  live_same :
      (j : String) (r : Revision)
      → db.revisions j ≡ some r
      → r.workflow_status ≡ WorkflowStatus.published
      → rid ≢ j
      → (is_approved (transition_of a).event_type && is_retired old rid j) ≡ false
      → r.entry_id ≡ e
      → Effect (transition_of a)
      → pointed_revision (db'.published_pointers e) ≡ some j
  live_same j r f p ne idle own kind =
      let before : pointed_revision (db.published_pointers e) ≡ some j =
        ap (λ x. pointed_revision (db.published_pointers x)) (sym own) ∙ valid.live j r f p in
      elim kind [
        | sets is to ↦ absurd (
            let k = some-is_retired old rid j (old-pointer ∙ before) ne in
            let l : is_approved (transition_of a).event_type ≡ true = ap is_approved is in
            let n = rw (l, k) at idle in cc)
        | clears is to draft ↦ absurd (
            ne (
              sym done.located.expected
              ∙ (expected_unpublished (transition_of a) current is draft
                  ∙ ap or_empty (old-pointer ∙ before))))
        | leaves same from to no_approval ↦
            ap pointed_revision (pointer_row ∙ same m rid env.now (db.published_pointers e))
            ∙ before
      ]

  unwritten :
      (j : String) (r r' : Revision)
      → db.revisions j ≡ some r
      → db'.revisions j ≡ some r'
      → r'.workflow_status ≡ WorkflowStatus.published
      → rid ≢ j
      → ((is_approved (transition_of a).event_type && is_retired old rid j) ≡ false) × (r ≡ r')
  unwritten j r r' f h p ne =
      let differ : (rid =s= j) ≡ false = ground (arith, eq_iff rid j) in
      let k : some (revised env (transition_of a) rid old j r) ≡ some r' =
        sym (done.rows j ∙ rw f refl) ∙ h in
      elim (Bool-cases (is_approved (transition_of a).event_type && is_retired old rid j)) [
        | inl retired ↦ absurd (let l = rw (differ, retired) at k in cc)
        | inr idle ↦ (idle, let l = rw (differ, idle) at k in cc)
      ]

  live_target :
      (j : String) (r : Revision)
      → db'.revisions j ≡ some r
      → r.workflow_status ≡ WorkflowStatus.published
      → rid ≡ j
      → Effect (transition_of a)
      → pointed_revision (db'.published_pointers r.entry_id) ≡ some j
  live_target j r h p same kind =
      let k = sym target_row ∙ (ap db'.revisions same ∙ h) in
      let own : e ≡ r.entry_id = sym done.located.of_entry ∙ (cc) in
      let status : (transition_of a).to ≡ WorkflowStatus.published = cc in
      elim kind [
        | sets is to ↦
            ap (λ x. pointed_revision (db'.published_pointers x)) (sym own)
            ∙ (ap pointed_revision (
                  pointer_row
                  ∙ ap (λ x. pointer_after x m rid env.now (db.published_pointers e)) is)
                ∙ (ap some (pointer_to-revision_id m rid env.now (db.published_pointers e))
                    ∙ ap some same))
        | clears is to draft ↦ absurd (to status)
        | leaves _ from to _ ↦ absurd (to status)
      ]

  live_after :
      (j : String) (r : Revision)
      → db'.revisions j ≡ some r
      → r.workflow_status ≡ WorkflowStatus.published
      → pointed_revision (db'.published_pointers r.entry_id) ≡ some j
  live_after j r h p = elim (Bool-cases (rid =s= j)) [
    | inl same ↦ live_target j r h p ((eq_iff rid j).0 same) (Effect-of a)
    | inr differ ↦
        let ne : rid ≢ j = =s=_ne rid j differ in
        let (r0, f, _) =
          map_option-some (revised env (transition_of a) rid old j) (db.revisions j) r
            (sym (done.rows j) ∙ h) in
        let (idle, same) = unwritten j r0 r f h p ne in
        let f' : db.revisions j ≡ some r = f ∙ ap some same in
        elim (Bool-cases (e =s= r.entry_id)) [
          | inl own ↦
              let q : e ≡ r.entry_id = (eq_iff e r.entry_id).0 own in
              ap (λ x. pointed_revision (db'.published_pointers x)) (sym q)
              ∙ live_same j r f' p ne idle (sym q) (Effect-of a)
          | inr other ↦
              ap pointed_revision (done.pointers r.entry_id ∙ rw other refl) ∙ valid.live j r f' p
        ]
  ]

  pub Outcome-IsConsistent : IsConsistent db'
  Outcome-IsConsistent = record {
    pointed = λ i p h. elim (Bool-cases (e =s= i)) [
      | inl same ↦
          let q : e ≡ i = (eq_iff e i).0 same in
          subst (λ x. IsLive db'.revisions x p.revision_id) q
            (pointed_same p (ap db'.published_pointers q ∙ h) (Effect-of a))
      | inr differ ↦ pointed_other i p (=s=_ne e i differ) h
    ];
    live = live_after;
  }

-- ===== src/Content/Workflow/Outcome.antt =====
-- The outcome of a workflow action that succeeds, as one statement about the tables.
use golang_cms.Audit.{AuditEvent}
use golang_cms.Prelude.{
  String, Bool, true, false, List, ◌&&◌, Option, none, some, [], ◌∷◌, ◌++◌, ◌=s=◌, if◌then◌else◌,
  Table, ◌≡◌, refl, ◌∙◌, sym, ap, arith, eq_iff, ◌≢◌, inl, inr, subst, fun_ext, Bool-cases,
}
use golang_cms.AppError.{ok, ok-bind}
use golang_cms.Content.Types.{
  WorkflowStatus, Revision, WorkflowEvent, Entry, Db, PublishedPointer, approved, FieldValue,
  Relation, MediaReference, AssetRow,
}
use golang_cms.Content.Repository.{get_entry, transitioned, map_option}
use golang_cms.Content.Env.{Env, append_audit, audit_event}
use golang_cms.Content.Workflow.{
  submitter_of, submitted_at_of, Transition, is_approved, locate, transition_target, move_pointer,
  record_event, refresh_unique, workflow_tx, audit_action,
}
use golang_cms.Content.Workflow.Steps.{
  Located, Transitioned, is_retired, locate-Located, transition_target-Transitioned,
}
use golang_cms.Content.Workflow.Revalued.{UniqueAfter, refresh_unique-UniqueAfter}
use golang_cms.Content.Workflow.Effect.{
  pointer_after, Moved, move_pointer-Moved, event_of, record_event-event, refresh_unique-kept,
  append_audit-event,
}

-- A revision behind an action on `revision_id`: the target makes its transition, an approval takes
-- the revision published before offline, and the others stay.
abbrev pub revised : Env → Transition → String → Option String → String → Revision → Revision
revised env t revision_id old j r =
    if revision_id =s= j
    then transitioned r t.to (submitter_of env t) (submitted_at_of env t)
    else if is_approved t.event_type && is_retired old revision_id j
    then transitioned r WorkflowStatus.unpublished none none
    else r

-- The tables of values, relations and assets, which no action writes.
abbrev pub others_of :
    Db → List FieldValue × (List Relation × (List MediaReference × Table AssetRow))
others_of db = (db.field_values, (db.relations, (db.asset_references, db.assets)))

pub record Outcome (env : Env) (t : Transition) (model_id entry_id revision_id : String) (db : Db)
    (result : Entry) (db' : Db) (current : Entry) (revision : Revision) : Type 0 where
  pub located : Located env t model_id entry_id revision_id db current revision
  pub rows :
      (j : String)
      → db'.revisions j
        ≡ map_option
            (revised env t revision_id current.current_published_revision_id j)
            (db.revisions j)
  pub pointers :
      (j : String)
      → db'.published_pointers j ≡ (
          if entry_id =s= j
          then pointer_after t.event_type model_id revision_id env.now (db.published_pointers j)
          else db.published_pointers j)
  pub entries : db'.entries ≡ db.entries
  pub drafts : db'.draft_pointers ≡ db.draft_pointers
  pub models : db'.models ≡ db.models
  pub others : others_of db' ≡ others_of db
  pub unique : UniqueAfter env t.event_type model_id entry_id result db db'
  pub event :
      (id : String) × (db'.workflow_events
        ≡ db.workflow_events ++ event_of env t id entry_id revision_id ∷ [])
  pub audited :
      (id : String) × (db'.audit_events
        ≡ db.audit_events
          ++ audit_event env id (audit_action t.event_type) "content_revision" revision_id ∷ [])
  pub read_back : get_entry db' model_id entry_id ≡ ok result
  pub was_published :
      t.event_type ≡ approved
      → (o : String) (r : Revision) → current.current_published_revision_id ≡ some o
      → o ≢ revision_id
      → db.revisions o ≡ some r
      → r.workflow_status ≡ WorkflowStatus.published

ne_test : {a b : String} → a ≢ b → (b =s= a) ≡ false
ne_test {a} {b} h = ground (arith, eq_iff b a)

is_retired_self : (old : Option String) (j : String) → is_retired old j j ≡ false
is_retired_self none j = refl
is_retired_self (some o) j = ground arith

&&-false : (a : Bool) → (a && false) ≡ false
&&-false a = ground arith

if-map_option :
    {A : Type 0} (f : A → A) (b : Bool) (o : Option A)
    → (if b then map_option f o else o) ≡ map_option (λ r. if b then f r else r) o
if-map_option f true none = refl
if-map_option f true (some a) = refl
if-map_option f false none = refl
if-map_option f false (some a) = refl

module _ (env : Env) (t : Transition) (m e rid : String) (db db1 db2 : Db) (old : Option String)
    (first : Transitioned rid t.from t.to
      (submitter_of env t)
      (submitted_at_of env t)
      db.revisions
      db1.revisions)
    (second : Moved env t.event_type m e rid old db1 db2) where
  both_rows : (j : String) → db2.revisions j ≡ map_option (revised env t rid old j) (db.revisions j)
  both_rows j = elim (Bool-cases (rid =s= j)) [
    | inl same ↦
        let p : rid ≡ j = (eq_iff rid j).0 same in
        let idle : is_retired old rid j ≡ false =
          subst (λ x. is_retired old rid x ≡ false) p (is_retired_self old rid) in
        let row : db.revisions j ≡ some first.revision = ap db.revisions (sym p) ∙ first.row in
        second.rows j
        ∙ rw (idle, &&-false (is_approved t.event_type)) (first.rows j ∙ rw row (rw same))
    | inr differ ↦
        let off = is_approved t.event_type && is_retired old rid j in
        let retire = λ (r : Revision). transitioned r WorkflowStatus.unpublished none none in
        let row : db1.revisions j ≡ db.revisions j = first.rows j ∙ rw differ in
        let same : (λ (r : Revision). if off then retire r else r) ≡ revised env t rid old j =
          fun_ext λ r. rw differ in
        second.rows j
        ∙ (rw row (if-map_option retire off (db.revisions j))
            ∙ ap (λ f. map_option f (db.revisions j)) same)
  ]

-- The tables that the two logs and the unique values leave alone.
record Logged (db2 db5 : Db) (event : WorkflowEvent) (audit : AuditEvent) : Type 0 where
  revisions : db5.revisions ≡ db2.revisions
  pointers : db5.published_pointers ≡ db2.published_pointers
  entries : db5.entries ≡ db2.entries
  drafts : db5.draft_pointers ≡ db2.draft_pointers
  models : db5.models ≡ db2.models
  others : others_of db5 ≡ others_of db2
  events : db5.workflow_events ≡ db2.workflow_events ++ event ∷ []
  audits : db5.audit_events ≡ db2.audit_events ++ audit ∷ []

logged :
    (db2 db3 db4 db5 : Db) (event : WorkflowEvent) (audit : AuditEvent)
    → db3 ≡ record db2 { workflow_events = db2.workflow_events ++ event ∷ [] }
    → db4 ≡ record db3 { unique_values = db4.unique_values }
    → db5 ≡ record db4 { audit_events = db4.audit_events ++ audit ∷ [] }
    → Logged db2 db5 event audit
logged db2 db3 db4 db5 event audit p q r = record {
  revisions = f (λ d. d.revisions) ∙ g (λ d. d.revisions) ∙ h (λ d. d.revisions);
  pointers =
      f (λ d. d.published_pointers) ∙ g (λ d. d.published_pointers) ∙ h (λ d. d.published_pointers);
  entries = f (λ d. d.entries) ∙ g (λ d. d.entries) ∙ h (λ d. d.entries);
  drafts = f (λ d. d.draft_pointers) ∙ g (λ d. d.draft_pointers) ∙ h (λ d. d.draft_pointers);
  models = f (λ d. d.models) ∙ g (λ d. d.models) ∙ h (λ d. d.models);
  others = f others_of ∙ g others_of ∙ h others_of;
  events = f (λ d. d.workflow_events) ∙ g (λ d. d.workflow_events) ∙ h (λ d. d.workflow_events);
  audits =
      f (λ d. d.audit_events)
      ∙ ap (λ l. l ++ audit ∷ []) (g (λ d. d.audit_events) ∙ h (λ d. d.audit_events));
}
  where
    h :
        {A : Type 0} (x : Db → A)
        → x db3 ≡ x (record db2 { workflow_events = db2.workflow_events ++ event ∷ [] })
    h x = ap x p

    g : {A : Type 0} (x : Db → A) → x db4 ≡ x (record db3 { unique_values = db4.unique_values })
    g x = ap x q

    f :
        {A : Type 0} (x : Db → A)
        → x db5 ≡ x (record db4 { audit_events = db4.audit_events ++ audit ∷ [] })
    f x = ap x r

-- The steps of a transaction that returns, put together.
module _ (env : Env) (t : Transition) (m e rid event_id audit_id : String)
    (db db1 db2 db3 db4 db5 : Db) (current entry : Entry) (revision : Revision)
    (located : Located env t m e rid db current revision)
    (first : Transitioned rid t.from t.to
      (submitter_of env t)
      (submitted_at_of env t)
      db.revisions
      db1.revisions)
    (kept1 : db1 ≡ record db { revisions = db1.revisions })
    (second : Moved env t.event_type m e rid current.current_published_revision_id db1 db2)
    (kept3 : db3
      ≡ record db2 { workflow_events = db2.workflow_events ++ event_of env t event_id e rid ∷ [] })
    (refreshed : refresh_unique env t.event_type m e db3 ≡ ok (tt, db4))
    (kept5 : db5 ≡ record db4 {
      audit_events =
          db4.audit_events
          ++ audit_event env audit_id (audit_action t.event_type) "content_revision" rid ∷ [];
    })
    (read : get_entry db5 m e ≡ ok entry) where
  abbrev audit : AuditEvent
  audit = audit_event env audit_id (audit_action t.event_type) "content_revision" rid

  outcome_of : Outcome env t m e rid db entry db5 current revision
  outcome_of =
      let old = current.current_published_revision_id in
      let kept4 = refresh_unique-kept env t.event_type m e db3 db4 refreshed in
      let after = logged db2 db3 db4 db5 (event_of env t event_id e rid) audit kept3 kept4 kept5 in
      record {
        located = located;
        rows = λ j.
            ap (λ r. r j) after.revisions ∙ both_rows env t m e rid db db1 db2 old first second j;
        pointers = λ j.
            ap (λ r. r j) after.pointers
            ∙ second.pointers j
            ∙ ap
                (λ (r : Table PublishedPointer).
                  if e =s= j then pointer_after t.event_type m rid env.now (r j) else r j)
                (ap (λ (d : Db). d.published_pointers) kept1);
        entries =
            after.entries
            ∙ (ap (λ (d : Db). d.entries) second.kept ∙ ap (λ (d : Db). d.entries) kept1);
        drafts =
            after.drafts
            ∙ (ap (λ (d : Db). d.draft_pointers) second.kept
                ∙ ap (λ (d : Db). d.draft_pointers) kept1);
        models =
            after.models
            ∙ (ap (λ (d : Db). d.models) second.kept ∙ ap (λ (d : Db). d.models) kept1);
        others = after.others ∙ (ap others_of second.kept ∙ ap others_of kept1);
        unique =
            refresh_unique-UniqueAfter env m e db db3 db4 db5 entry audit
              (ap (λ (d : Db). d.unique_values) kept3
                ∙ (ap (λ (d : Db). d.unique_values) second.kept
                    ∙ ap (λ (d : Db). d.unique_values) kept1))
              (ap (λ (d : Db). d.models) kept3
                ∙ (ap (λ (d : Db). d.models) second.kept ∙ ap (λ (d : Db). d.models) kept1))
              kept5 read t.event_type refreshed;
        event = (
          event_id,
          after.events
              ∙ ap (λ l. l ++ event_of env t event_id e rid ∷ [])
                  (ap (λ (d : Db). d.workflow_events) second.kept
                    ∙ ap (λ (d : Db). d.workflow_events) kept1),
        );
        audited = (
          audit_id,
          after.audits
              ∙ ap (λ l. l ++ audit ∷ [])
                  (ap (λ (d : Db). d.audit_events) second.kept
                    ∙ ap (λ (d : Db). d.audit_events) kept1),
        );
        read_back = read;
        was_published =
            λ is o r p ne f. second.was_published is o r p ne (first.rows o ∙ (rw (ne_test ne) f));
      }

module _ (env : Env) (t : Transition) (m e rid : String) (db db' : Db) (result : Entry)
    (h : workflow_tx env t m e rid db ≡ ok (result, db')) where
  -- A transaction of `workflow` that returns has found a revision of the entry in the state that the
  -- action starts from, and its outcome is as described.
  pub workflow_tx-Outcome :
      (current : Entry) × (revision : Revision) × Outcome env t m e rid db result db' current
        revision
  unfolding workflow_tx
  workflow_tx-Outcome = ok-bind (locate env t m e rid db) _ h λ (current, revision) e0 k0.
      ok-bind (transition_target env t rid db) _ k0 λ (_, db1) e1 k1.
        ok-bind (move_pointer env t.event_type m e rid current.current_published_revision_id db1) _
          k1
          λ (_, db2) e2 k2. ok-bind (record_event env t e rid db2) _ k2 λ (_, db3) e3 k3.
            ok-bind (refresh_unique env t.event_type m e db3) _ k3 λ (_, db4) e4 k4.
              ok-bind (append_audit env (audit_action t.event_type) "content_revision" rid db4) _ k4
                λ (_, db5) e5 k5. ok-bind (get_entry db5 m e) _ k5 λ entry e6 k6.
                  let old = current.current_published_revision_id in
                  let (first, kept1) = transition_target-Transitioned env t rid db db1 e1 in
                  let second = move_pointer-Moved env t.event_type m e rid old db1 db2 e2 in
                  let (event_id, kept3) = record_event-event env t e rid db2 db3 e3 in
                  let (audit_id, kept5) =
                    append_audit-event env (audit_action t.event_type) "content_revision" rid db4
                      db5 e5 in
                  (
                    current,
                    revision,
                    subst (λ (x : Entry × Db). Outcome env t m e rid db x.0 x.1 current revision)
                        (cc)
                        (outcome_of env t m e rid event_id audit_id db db1 db2 db3 db4 db5 current
                          entry revision (locate-Located env t m e rid db current revision e0) first
                          kept1 second kept3 e4 kept5 e6),
                  )

-- ===== src/Content/Workflow/Steps.antt =====
-- What each step of `workflow` has done where it succeeds.
use golang_cms.Prelude.{
  ℕ, String, Bool, true, false, ◌&&◌, Option, none, some, ◌=s=◌, if◌then◌else◌, Table, put, ◌≡◌,
  refl, ◌∙◌, sym, ap, arith, eq_iff, ◌≢◌, inl, inr, Option-cases, subst, Bool-cases,
}
use golang_cms.AppError.{conflicting, ok, resource_not_found, ok-bind, ok-guard, ok-if}
use golang_cms.Identity.Types.{Principal}
use golang_cms.Identity.Normalize.{holds}
use golang_cms.Permission.Defs.{require_model_permission}
use golang_cms.Content.Types.{WorkflowStatus, Revision, EntrySummary, Entry, Db, same_status}
use golang_cms.Content.Repository.{
  get_model, lock_entry, get_revision, get_entry, transition_revision, transitioned, map_option,
  get_published, found,
}
use golang_cms.Content.Env.{Env}
use golang_cms.Content.Workflow.{
  submitter_of, submitted_at_of, check_media, Transition, expected_revision, locate,
  transition_target, retire_published,
}

pub same_status_eq : (a b : WorkflowStatus) → same_status a b ≡ true → a ≡ b
same_status_eq a b h = ground arith

-- The revision of an action is a row of the entry, in the state that the action starts from.
pub record Located (env : Env) (t : Transition) (model_id entry_id revision_id : String) (db : Db)
    (current : Entry) (revision : Revision) : Type 0 where
  pub permitted : holds env.principal.model_permissions model_id t.permission ≡ true
  pub read : get_entry db model_id entry_id ≡ ok current
  pub expected : expected_revision t current.summary current ≡ revision_id
  pub row : db.revisions revision_id ≡ some revision
  pub of_entry : revision.entry_id ≡ entry_id
  pub of_model : revision.model_id ≡ model_id
  pub starts : revision.workflow_status ≡ t.from

get_entry-lock_entry :
    (db : Db) (model_id entry_id : String) (s : EntrySummary) (current : Entry)
    → lock_entry db model_id entry_id ≡ ok s
    → get_entry db model_id entry_id ≡ ok current
    → s ≡ current.summary
unfolding get_entry
get_entry-lock_entry db m e s current h k = ok-bind (lock_entry db m e) _ k λ s' e1 k1.
    ok-bind (get_revision db m e s'.current_draft_revision_id) _ k1 λ draft e2 k2.
      ok-bind (get_published db m e s'.current_published_revision_id) _ k2 λ published e3 k3. cc

pub found-some {ℓ} : {A : Type ℓ} (o : Option A) (a : A) → found o ≡ ok a → o ≡ some a
found-some none a h = cc
found-some (some b) a h = cc

pub get_revision-ok :
    (db : Db) (m e rid : String) (r : Revision)
    → get_revision db m e rid ≡ ok r
    → (db.revisions rid ≡ some r) × (r.entry_id ≡ e) × (r.model_id ≡ m)
unfolding get_revision
get_revision-ok db m e rid r h = ok-bind (found (db.revisions rid)) _ h λ r' e1 k1.
    ok-guard (r'.entry_id =s= e && r'.model_id =s= m) resource_not_found _ k1 λ own k2.
      let same : r' ≡ r = cc in
      ground
        (arith, found-some (db.revisions rid) r' e1, eq_iff r'.entry_id e, eq_iff r'.model_id m)

require-holds :
    (p : Principal) (m c : String)
    → require_model_permission p m c ≡ ok tt
    → holds p.model_permissions m c ≡ true
unfolding require_model_permission
require-holds p m c h = ground arith

pub locate-Located :
    (env : Env) (t : Transition) (model_id entry_id revision_id : String) (db : Db)
    (current : Entry) (revision : Revision)
    → locate env t model_id entry_id revision_id db ≡ ok (current, revision)
    → Located env t model_id entry_id revision_id db current revision
unfolding locate require_model_permission
locate-Located env t m e rid db current revision h =
    ok-bind (require_model_permission env.principal m t.permission) _ h λ _ e1 k1.
      ok-bind (get_model db m) _ k1 λ _ e2 k2. ok-bind (lock_entry db m e) _ k2 λ s e3 k3.
        ok-bind (get_entry db m e) _ k3 λ c e4 k4.
          ok-guard (expected_revision t s c =s= rid) (conflicting "workflow_revision_conflict") _ k4
            λ e5 k5. ok-bind (get_revision db m e rid) _ k5 λ r e6 k6.
              ok-guard (same_status r.workflow_status t.from)
                (conflicting "invalid_workflow_transition") _ k6
                λ e7 k7. ok-bind (check_media env t m r db) _ k7 λ _ e8 k8.
                  let same : c ≡ current = cc in
                  let row : r ≡ revision = cc in
                  let (f, g, i) = get_revision-ok db m e rid r e6 in
                  record {
                    permitted = require-holds env.principal m t.permission e1;
                    read = e4 ∙ ap ok same;
                    expected = cc (get_entry-lock_entry db m e s c e3 e4, (eq_iff _ _).0 e5);
                    row = f ∙ ap some row;
                    of_entry = cc;
                    of_model = cc;
                    starts = cc (same_status_eq r.workflow_status t.from e7);
                  }

-- The revision that an approval of another one takes offline.
abbrev pub is_retired : Option String → String → String → Bool
is_retired none rid j = false
is_retired (some o) rid j = if o =s= rid then false else o =s= j

-- What `TransitionRevision` has done where it answers true.
pub record Transitioned (id : String) (from to : WorkflowStatus) (submitter : Option String)
    (at : Option ℕ) (t t' : Table Revision) : Type 0 where
  pub revision : Revision
  pub row : t id ≡ some revision
  pub starts : revision.workflow_status ≡ from
  pub rows :
      (j : String) → t' j ≡ (if id =s= j then some (transitioned revision to submitter at) else t j)

transition_revision-Transitioned :
    (id : String) (from to : WorkflowStatus) (submitter : Option String) (at : Option ℕ)
    (t : Table Revision)
    → (transition_revision id from to submitter at t).0 ≡ true
    → Transitioned id from to submitter at t (transition_revision id from to submitter at t).1
transition_revision-Transitioned id from to submitter at t h = elim (Option-cases (t id)) [
  | inl n ↦ absurd (unfold transition_revision in let k = rw (n, transition_revision) at h in cc)
  | inr (r, f) ↦
      let s : same_status r.workflow_status from ≡ true =
        unfold transition_revision in ground (arith, f) in
      record {
        revision = r;
        row = f;
        starts = same_status_eq r.workflow_status from s;
        rows = λ j. unfold transition_revision put in ground (arith, f);
      }
]

-- A step that wrote the revisions has written nothing else.
revisions_written :
    (db db' : Db) (t : Table Revision)
    → record db { revisions = t } ≡ db'
    → (t ≡ db'.revisions) × (db' ≡ record db { revisions = db'.revisions })
revisions_written db db' t e = (
  ap (λ (d : Db). d.revisions) e,
  sym e ∙ ap (λ (d : Db). record db { revisions = d.revisions }) e,
)

pub transition_target-Transitioned :
    (env : Env) (t : Transition) (rid : String) (db db' : Db)
    → transition_target env t rid db ≡ ok (tt, db')
    → Transitioned rid t.from t.to
        (submitter_of env t)
        (submitted_at_of env t)
        db.revisions
        db'.revisions
      × (db' ≡ record db { revisions = db'.revisions })
unfolding transition_target
transition_target-Transitioned env t rid db db' h =
    let r =
      transition_revision rid t.from t.to (submitter_of env t) (submitted_at_of env t)
        db.revisions in
    let (changed, same) =
      ok-if r.0 (tt, record db { revisions = r.1 }) (tt, db')
        (conflicting "invalid_workflow_transition") h in
    let (rows, kept) = revisions_written db db' r.1 (ap (λ x. x.1) same) in
    (
      subst (Transitioned rid t.from t.to (submitter_of env t) (submitted_at_of env t) db.revisions)
          rows
          (transition_revision-Transitioned rid t.from t.to (submitter_of env t)
            (submitted_at_of env t) db.revisions changed),
      kept,
    )

-- The revisions behind the retirement of the one published before.
pub record Retired (rid : String) (old : Option String) (t t' : Table Revision) : Type 0 where
  pub rows :
      (j : String)
      → t' j ≡ (
          if is_retired old rid j
          then map_option (λ r. transitioned r WorkflowStatus.unpublished none none) (t j)
          else t j)
  pub was_published :
      (o : String) (r : Revision)
      → old ≡ some o
      → o ≢ rid
      → t o ≡ some r
      → r.workflow_status ≡ WorkflowStatus.published

pub retire_published-Retired :
    (rid : String) (old : Option String) (db db' : Db)
    → retire_published rid old db ≡ ok (tt, db')
    → Retired rid old db.revisions db'.revisions × (db' ≡ record db { revisions = db'.revisions })
unfolding retire_published
retire_published-Retired rid none db db' h =
    let (rows, kept) = revisions_written db db' db.revisions (cc) in
    (
      subst (Retired rid none db.revisions) rows
          (record { rows = λ j. refl; was_published = λ o r e. absurd (cc) }),
      kept,
    )
retire_published-Retired rid (some o) db db' h = elim (Bool-cases (o =s= rid)) [
  | inl same ↦
      let (rows, kept) = revisions_written db db' db.revisions (ground (arith, same)) in
      (
        subst (Retired rid (some o) db.revisions) rows (record {
          rows = λ j. rw same;
          was_published = λ o' r e ne. absurd (ne (ground (arith, eq_iff o rid)));
        }),
        kept,
      )
  | inr differ ↦
      let x =
        transition_revision o WorkflowStatus.published WorkflowStatus.unpublished none none
          db.revisions in
      let (changed, written) =
        ok-if x.0 (tt, record db { revisions = x.1 }) (tt, db')
          (conflicting "workflow_revision_conflict") (rw differ at h) in
      let (rows, kept) = revisions_written db db' x.1 (ap (λ x. x.1) written) in
      let done =
        transition_revision-Transitioned o WorkflowStatus.published WorkflowStatus.unpublished none
          none db.revisions changed in
      (
        subst (Retired rid (some o) db.revisions) rows (record {
          rows = λ j. rw differ (done.rows j ∙ ground (arith, done.row, eq_iff o j));
          was_published = λ o' r e ne f. ground (arith, done.row, done.starts);
        }),
        kept,
      )
]

-- ===== src/Content/Workflow/Effect.antt =====
-- What `workflow` has done where it succeeds, table by table.
use golang_cms.Prelude.{
  ℕ, String, true, false, ◌&&◌, ◌||◌, Option, none, some, List, [], ◌∷◌, ◌++◌, ◌=s=◌, is_empty_text,
  if◌then◌else◌, Table, put, remove, ◌≡◌, refl, ◌∙◌, sym, ap, arith, eq_iff, ◌≢◌, inl, inr, subst,
  Bool-cases,
}
use golang_cms.AppError.{conflicting, Result, ok, ok-bind, ok-if}
use golang_cms.Schema.{ContentModel}
use golang_cms.Content.Types.{
  EventType, WorkflowStatus, Revision, WorkflowEvent, Entry, UniqueValue, Db, PublishedPointer,
  submitted, approved,
}
use golang_cms.Content.Repository.{
  get_model, get_entry, set_published_pointer, delete_published_pointer, create_workflow_event,
  replace_unique_values, transitioned, map_option,
}
use golang_cms.Content.Env.{Env, append_audit, append_event, audit_event}
use golang_cms.Content.Workflow.{
  published_values, add_values, Transition, is_approved, is_unpublished, move_pointer,
  retire_published, record_event, refresh_unique, rebuild_unique_values,
}
use golang_cms.Content.Workflow.Steps.{is_retired, retire_published-Retired, found-some}

-- The published pointer of an entry behind an event of that entry.
abbrev pub pointer_to : String → String → ℕ → Option PublishedPointer → PublishedPointer
pointer_to model_id revision_id at none = record {
  model_id = model_id;
  revision_id = revision_id;
  published_at = at;
}
pointer_to model_id revision_id at (some p) = record p {
  revision_id = revision_id;
  published_at = at;
}

abbrev pub pointer_after :
    EventType → String → String → ℕ → Option PublishedPointer → Option PublishedPointer
pointer_after EventType.approved model_id revision_id at p =
    some (pointer_to model_id revision_id at p)
pointer_after EventType.unpublished model_id revision_id at p = none
pointer_after _ model_id revision_id at p = p

-- What the pointer step has done.
pub record Moved (env : Env) (event : EventType) (model_id entry_id revision_id : String)
    (old : Option String) (db db' : Db) : Type 0 where
  pub rows :
      (j : String)
      → db'.revisions j ≡ (
          if is_approved event && is_retired old revision_id j
          then map_option
              (λ r. transitioned r WorkflowStatus.unpublished none none)
              (db.revisions j)
          else db.revisions j)
  pub pointers :
      (j : String)
      → db'.published_pointers j ≡ (
          if entry_id =s= j
          then pointer_after event model_id revision_id env.now (db.published_pointers j)
          else db.published_pointers j)
  pub kept :
      db' ≡ record db { revisions = db'.revisions; published_pointers = db'.published_pointers }
  pub was_published :
      event ≡ approved
      → (o : String) (r : Revision) → old ≡ some o
      → o ≢ revision_id
      → db.revisions o ≡ some r
      → r.workflow_status ≡ WorkflowStatus.published

set_published_pointer-row :
    (m e rid : String) (at : ℕ) (db : Db) (j : String)
    → (set_published_pointer m e rid at db).published_pointers j ≡ (
        if e =s= j
        then some (pointer_to m rid at (db.published_pointers j))
        else db.published_pointers j)
unfolding set_published_pointer put
set_published_pointer-row m e rid at db j = ground (arith, eq_iff e j)

move_approved :
    (env : Env) (m e rid : String) (old : Option String) (db db' : Db)
    → move_pointer env approved m e rid old db ≡ ok (tt, db')
    → Moved env approved m e rid old db db'
unfolding move_pointer
move_approved env m e rid old db db' h = ok-bind (retire_published rid old db) _ h λ (_, db1) e1 k1.
    let (done, kept) = retire_published-Retired rid old db db1 e1 in
    let same : db1.published_pointers ≡ db.published_pointers =
      ap (λ (d : Db). d.published_pointers) kept in
    let next = set_published_pointer m e rid env.now db1 in
    let written : next ≡ db' = cc in
    subst (Moved env approved m e rid old db) written (record {
      rows = λ j. unfold set_published_pointer in done.rows j;
      pointers = λ j.
          set_published_pointer-row m e rid env.now db1 j
          ∙ ap
              (λ (t : Table PublishedPointer).
                if e =s= j then some (pointer_to m rid env.now (t j)) else t j)
              same;
      kept =
          unfold set_published_pointer in
          ap (λ (d : Db). record d { published_pointers = next.published_pointers }) kept;
      was_published = λ _. done.was_published;
    })

delete_published_pointer-row :
    (m e rid : String) (t : Table PublishedPointer) (j : String)
    → (delete_published_pointer m e rid t).0 ≡ true
    → (delete_published_pointer m e rid t).1 j ≡ (if e =s= j then none else t j)
unfolding delete_published_pointer remove
delete_published_pointer-row m e rid t j h = ground arith

move_unpublished :
    (env : Env) (m e rid : String) (old : Option String) (db db' : Db)
    → move_pointer env EventType.unpublished m e rid old db ≡ ok (tt, db')
    → Moved env EventType.unpublished m e rid old db db'
unfolding move_pointer
move_unpublished env m e rid old db db' h =
    let x = delete_published_pointer m e rid db.published_pointers in
    let (deleted, written) =
      ok-if x.0 (tt, record db { published_pointers = x.1 }) (tt, db')
        (conflicting "workflow_revision_conflict") h in
    subst (Moved env EventType.unpublished m e rid old db) (ap (λ r. r.1) written) (record {
      rows = λ j. refl;
      pointers = λ j. delete_published_pointer-row m e rid db.published_pointers j deleted;
      kept = refl;
      was_published = λ e. absurd (cc);
    })

-- A step that writes nothing.
move_none :
    (env : Env) (event : EventType) (m e rid : String) (old : Option String) (db db' : Db)
    → is_approved event ≡ false
    → is_unpublished event ≡ false
    → db ≡ db'
    → Moved env event m e rid old db db'
move_none env event m e rid old db db' a u same =
    subst (Moved env event m e rid old db) same (record {
      rows = λ j. ground arith;
      pointers = λ j. ground arith;
      kept = refl;
      was_published = λ e. ground arith;
    })

pub move_pointer-Moved :
    (env : Env) (event : EventType) (m e rid : String) (old : Option String) (db db' : Db)
    → move_pointer env event m e rid old db ≡ ok (tt, db')
    → Moved env event m e rid old db db'
unfolding move_pointer
move_pointer-Moved env EventType.approved m e rid old db db' h =
    move_approved env m e rid old db db' h
move_pointer-Moved env EventType.unpublished m e rid old db db' h =
    move_unpublished env m e rid old db db' h
move_pointer-Moved env EventType.submitted m e rid old db db' h =
    move_none env submitted m e rid old db db' refl refl (cc)
move_pointer-Moved env EventType.rejected m e rid old db db' h =
    move_none env EventType.rejected m e rid old db db' refl refl (cc)

-- The event of a transition.
abbrev pub event_of : Env → Transition → String → String → String → WorkflowEvent
event_of env t id entry_id revision_id = record {
  id = id;
  entry_id = entry_id;
  revision_id = revision_id;
  event_type = t.event_type;
  from_status = t.from;
  to_status = t.to;
  actor_id = env.principal.user_id;
  reason = if is_empty_text t.reason then none else some t.reason;
  occurred_at = env.now;
}

pub record_event-event :
    (env : Env) (t : Transition) (e rid : String) (db db' : Db)
    → record_event env t e rid db ≡ ok (tt, db')
    → (id : String) × (db'
        ≡ record db { workflow_events = db.workflow_events ++ event_of env t id e rid ∷ [] })
unfolding record_event create_workflow_event
record_event-event env t e rid db db' h =
    ok-bind (env.new_id "wfe_") _ h λ id e1 k1. (id, ground (arith, k1))

get_model-row :
    (db : Db) (m : String) (model : ContentModel)
    → get_model db m ≡ ok model
    → db.models m ≡ some model
unfolding get_model
get_model-row db m model h = found-some (db.models m) model h

-- The values of the published revision, if there is one.
abbrev pub PublishedValues : Env → ContentModel → Option Revision → List UniqueValue → Type 0
PublishedValues env model none values = values ≡ []
PublishedValues env model (some r) values =
    env.rules.unique_values r.content model.fields ≡ ok values

published_values-PublishedValues :
    (env : Env) (model : ContentModel) (o : Option Revision) (values : List UniqueValue)
    → published_values env model o ≡ ok values
    → PublishedValues env model o values
unfolding published_values
published_values-PublishedValues env model none values h = cc
published_values-PublishedValues env model (some r) values h = h

-- What `rebuildUniqueValues` has read and written.
pub record Rebuilt (env : Env) (model_id entry_id : String) (db db' : Db) : Type 0 where
  pub model : ContentModel
  pub entry : Entry
  pub drafted : List UniqueValue
  pub published : List UniqueValue
  pub model_row : db.models model_id ≡ some model
  pub read : get_entry db model_id entry_id ≡ ok entry
  pub draft_values :
      env.rules.unique_values entry.current_draft_revision.content model.fields ≡ ok drafted
  pub other_values : PublishedValues env model entry.current_published_revision published
  pub table :
      replace_unique_values model_id entry_id
        (add_values (add_values [] drafted) published)
        db.unique_values
      ≡ ok db'.unique_values
  pub kept : db' ≡ record db { unique_values = db'.unique_values }

pub rebuild_unique_values-Rebuilt :
    (env : Env) (m e : String) (db db' : Db)
    → rebuild_unique_values env m e db ≡ ok (tt, db')
    → Rebuilt env m e db db'
unfolding rebuild_unique_values
rebuild_unique_values-Rebuilt env m e db db' h = ok-bind (get_model db m) _ h λ model e1 k1.
    ok-bind (get_entry db m e) _ k1 λ entry e2 k2.
      ok-bind (env.rules.unique_values entry.current_draft_revision.content model.fields) _ k2
        λ drafted e3 k3.
          ok-bind (published_values env model entry.current_published_revision) _ k3
            λ published e4 k4.
              ok-bind
                (replace_unique_values m e (add_values (add_values [] drafted) published)
                  db.unique_values)
                _ k4
                λ table e5 k5.
                  let written : record db { unique_values = table } ≡ db' = cc in
                  record {
                    model = model;
                    entry = entry;
                    drafted = drafted;
                    published = published;
                    model_row = get_model-row db m model e1;
                    read = e2;
                    draft_values = e3;
                    other_values =
                        published_values-PublishedValues env model entry.current_published_revision
                          published e4;
                    table = e5 ∙ ap (λ (d : Db). ok d.unique_values) written;
                    kept =
                        sym written
                        ∙ ap (λ (d : Db). record db { unique_values = d.unique_values }) written;
                  }

pub refresh_unique-kept :
    (env : Env) (event : EventType) (m e : String) (db db' : Db)
    → refresh_unique env event m e db ≡ ok (tt, db')
    → db' ≡ record db { unique_values = db'.unique_values }
unfolding refresh_unique
refresh_unique-kept env event m e db db' h =
    elim (Bool-cases (is_approved event || is_unpublished event)) [
      | inl moved ↦ (rebuild_unique_values-Rebuilt env m e db db' (rw moved at h)).kept
      | inr not_moved ↦
          let k : ◌≡◌ {A = Result (Unit {0} × Db)} (ok (tt, db)) (ok (tt, db')) =
            rw not_moved at h in
          let same : db ≡ db' = cc in
          sym same ∙ ap (λ (d : Db). record db { unique_values = d.unique_values }) same
    ]

pub append_audit-event :
    (env : Env) (action kind rid : String) (db db' : Db)
    → append_audit env action kind rid db ≡ ok (tt, db')
    → (id : String) × (db'
        ≡ record db { audit_events = db.audit_events ++ audit_event env id action kind rid ∷ [] })
unfolding append_audit append_event
append_audit-event env action kind rid db db' h =
    ok-bind (env.new_id "evt_") _ h λ id e1 k1. (id, ground (arith, k1))

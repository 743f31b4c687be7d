-- ===== src/Content/Drafting/Steps.antt =====
-- What the writes of a new draft leave alone, and what they write.
use golang_cms.Prelude.{
  ℕ, String, Bool, true, ◌||◌, Option, none, some, ◌=s=◌, if◌then◌else◌, put, ◌≡◌, refl, ◌∙◌, sym,
  ap, arith, eq_iff, inl, inr, Option-cases,
}
use golang_cms.AppError.{conflicting, Result, ok, ok-bind, ok-guard}
use golang_cms.Schema.{ContentModel, ContentFields}
use golang_cms.Content.Types.{EntryStatus, WorkflowStatus, Revision, EntryRow, DraftPointer, Db}
use golang_cms.Content.Repository.{
  create_entry, create_revision, set_draft_pointer, update_entry, replace_unique_values,
  validate_relation_targets,
}
use golang_cms.Content.Env.{Env, RevisionKey, key_of, append_audit}
use golang_cms.Content.References.{precheck_media}
use golang_cms.Content.Workflow.{is_nil, rebuild_unique_values}
use golang_cms.Content.Workflow.Effect.{rebuild_unique_values-Rebuilt, append_audit-event}
use golang_cms.Content.Drafting.{write_revision_derivatives, occupy_values}

-- The tables of entries, revisions and pointers are the same.
pub record Same (db db' : Db) : Type 0 where
  pub entries : db'.entries ≡ db.entries
  pub revisions : db'.revisions ≡ db.revisions
  pub drafts : db'.draft_pointers ≡ db.draft_pointers
  pub published : db'.published_pointers ≡ db.published_pointers

pub Same-trans : (a b c : Db) → Same a b → Same b c → Same a c
Same-trans a b c x y = record {
  entries = y.entries ∙ x.entries;
  revisions = y.revisions ∙ x.revisions;
  drafts = y.drafts ∙ x.drafts;
  published = y.published ∙ x.published;
}

Same-as : (db next db' : Db) → Same db next → next ≡ db' → Same db db'
Same-as db next db' s e = record {
  entries = sym (ap (λ (d : Db). d.entries) e) ∙ s.entries;
  revisions = sym (ap (λ (d : Db). d.revisions) e) ∙ s.revisions;
  drafts = sym (ap (λ (d : Db). d.draft_pointers) e) ∙ s.drafts;
  published = sym (ap (λ (d : Db). d.published_pointers) e) ∙ s.published;
}

Same-refl :
    {a b : Db}
    → (a.entries ≡ b.entries)
    → (a.revisions ≡ b.revisions)
    → (a.draft_pointers ≡ b.draft_pointers)
    → (a.published_pointers ≡ b.published_pointers)
    → Same b a
Same-refl p q r s = record { entries = p; revisions = q; drafts = r; published = s }

written : {db db' : Db} → ◌≡◌ {A = Result (Unit {0} × Db)} (ok (tt, db)) (ok (tt, db')) → db ≡ db'
written h = cc

pub write_revision_derivatives-Same :
    (env : Env) (r : Revision) (fields : ContentFields) (base : String) (a b : Bool) (db db' : Db)
    → write_revision_derivatives env r fields base a b db ≡ ok (tt, db')
    → Same db db'
unfolding write_revision_derivatives
write_revision_derivatives-Same env r fields base a b db db' h =
    ok-bind (env.rules.media_references r.content (key_of r) fields) _ h λ references e1 k1.
      ok-bind (env.rules.derivatives r.content (key_of r) fields) _ k1 λ (values, relations) e2 k2.
        ok-bind (if a then ok tt else validate_relation_targets db relations) _ k2 λ _ e3 k3.
          ok-bind (if b then ok tt else precheck_media env db references base) _ k3 λ _ e4 k4.
            ok-guard (is_nil references || env.media_enabled) (conflicting "assets_disabled") _ k4
              λ e5 k5. Same-as db _ db' (Same-refl refl refl refl refl) (written k5)

pub occupy_values-Same :
    (env : Env) (model : ContentModel) (key : RevisionKey) (content : String) (db db' : Db)
    → occupy_values env model key content db ≡ ok (tt, db')
    → Same db db'
unfolding occupy_values
occupy_values-Same env model key content db db' h =
    ok-bind (env.rules.unique_values content model.fields) _ h λ values e1 k1.
      ok-bind (replace_unique_values key.model_id key.entry_id values db.unique_values) _ k1
        λ table e2 k2. Same-as db _ db' (Same-refl refl refl refl refl) (written k2)

pub rebuild_unique_values-Same :
    (env : Env) (m e : String) (db db' : Db)
    → rebuild_unique_values env m e db ≡ ok (tt, db')
    → Same db db'
rebuild_unique_values-Same env m e db db' h =
    Same-as db _ db' (Same-refl refl refl refl refl)
      (sym (rebuild_unique_values-Rebuilt env m e db db' h).kept)

pub append_audit-Same :
    (env : Env) (action kind rid : String) (db db' : Db)
    → append_audit env action kind rid db ≡ ok (tt, db')
    → Same db db'
append_audit-Same env action kind rid db db' h =
    Same-as db _ db' (Same-refl refl refl refl refl)
      (sym (append_audit-event env action kind rid db db' h).1)

pub create_revision-row :
    (r : Revision) (db db' : Db)
    → create_revision r db ≡ ok (tt, db')
    → (db.revisions r.id ≡ none)
      × (db' ≡ record db {
        revisions =
            put r.id
              (record r {
                workflow_status = WorkflowStatus.draft;
                submitted_by = none;
                submitted_at = none;
              })
              db.revisions;
      })
create_revision-row r db db' h = elim (Option-cases (db.revisions r.id)) [
  | inr (x, f) ↦ absurd (unfold create_revision in let k = rw (f, create_revision) at h in cc)
  | inl n ↦ (n, unfold create_revision in sym (written (rw (n, create_revision) at h)))
]

pub create_entry-row :
    (row : EntryRow) (db db' : Db)
    → create_entry row db ≡ ok (tt, db')
    → (db.entries row.id ≡ none) × (db' ≡ record db { entries = put row.id row db.entries })
create_entry-row row db db' h = elim (Option-cases (db.entries row.id)) [
  | inr (x, f) ↦ absurd (unfold create_entry in let k = rw (f, create_entry) at h in cc)
  | inl n ↦ (n, unfold create_entry in sym (written (rw (n, create_entry) at h)))
]

-- The draft pointer of an entry behind a new draft.
abbrev pub drafted : RevisionKey → Option DraftPointer → DraftPointer
drafted key none = record { model_id = key.model_id; revision_id = key.id }
drafted key (some p) = record p { revision_id = key.id }

pub set_draft_pointer-row :
    (key : RevisionKey) (db : Db) (e : String)
    → (set_draft_pointer key.model_id key.entry_id key.id db).draft_pointers e ≡ (
        if key.entry_id =s= e
        then some (drafted key (db.draft_pointers e))
        else db.draft_pointers e)
unfolding set_draft_pointer put
set_draft_pointer-row key db e = ground (arith, eq_iff key.entry_id e)

-- The rows of the entries behind `UpdateEntry`.
abbrev pub restated : EntryStatus → ℕ → EntryRow → EntryRow
restated status at row = record row { status = status; updated_at = at }

pub update_entry-row :
    (m e : String) (status : EntryStatus) (at : ℕ) (db : Db) (row : EntryRow)
    → db.entries e ≡ some row
    → row.model_id ≡ m
    → update_entry m e status at db
      ≡ record db { entries = put e (restated status at row) db.entries }
unfolding update_entry
update_entry-row m e status at db row f g =
    let own : (row.model_id =s= m) ≡ true = ground (arith, eq_iff row.model_id m) in
    rw (f, update_entry, own) refl

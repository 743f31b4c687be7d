-- ===== src/Content/Valid/Readable.antt =====
-- In valid tables each entry can be read.
use golang_cms.Prelude.{
  String, true, Option, none, some, ◌=s=◌, ◌&&◌, ◌≡◌, refl, ◌∙◌, sym, ap, arith, eq_iff,
}
use golang_cms.AppError.{ok}
use golang_cms.Content.Types.{
  WorkflowStatus, Revision, EntryRow, Entry, EntrySummary, PublishedPointer, DraftPointer, Db,
}
use golang_cms.Content.Repository.{lock_entry, get_revision, get_published, get_entry, map_option}
use golang_cms.Content.Valid.{HasDraft, IsValid}

get_revision-row :
    (db : Db) (m e rid : String) (r : Revision)
    → db.revisions rid ≡ some r
    → r.entry_id ≡ e
    → r.model_id ≡ m
    → get_revision db m e rid ≡ ok r
unfolding get_revision
get_revision-row db m e rid r f g h =
    let own : ((r.entry_id =s= e) && (r.model_id =s= m)) ≡ true =
      ground (arith, eq_iff r.entry_id e, eq_iff r.model_id m) in
    rw (f, own) refl

abbrev summary_of : (db : Db) (e : String) (row : EntryRow) → HasDraft db e row → EntrySummary
summary_of db e row d = record {
  id = e;
  model_id = row.model_id;
  status = row.status;
  current_draft_revision_id = d.pointer.revision_id;
  workflow_status = d.revision.workflow_status;
  current_published_revision_id =
      map_option (λ (p : PublishedPointer). p.revision_id) (db.published_pointers e);
  created_by = row.created_by;
  created_at = row.created_at;
  updated_at = row.updated_at;
}

lock_entry-total :
    (db : Db) (e : String) (row : EntryRow) (d : HasDraft db e row)
    → db.entries e ≡ some row
    → (s : EntrySummary) × (lock_entry db row.model_id e ≡ ok s)
      × (s ≡ summary_of db e row d)
      × (s.current_draft_revision_id ≡ d.pointer.revision_id)
      × (s.current_published_revision_id
          ≡ map_option (λ (p : PublishedPointer). p.revision_id) (db.published_pointers e))
unfolding lock_entry
lock_entry-total db e row d f =
    let own : (row.model_id =s= row.model_id) ≡ true =
      ground (arith, eq_iff row.model_id row.model_id) in
    let same : (d.pointer.model_id =s= row.model_id) ≡ true =
      ground (arith, eq_iff d.pointer.model_id row.model_id, d.of_model) in
    let s = summary_of db e row d in
    (s, rw (f, lock_entry, own, d.pointed, same, d.revision_row) refl, refl, refl, refl)

-- The published revision of an entry is that of its published pointer, in the state `published`, and there
-- is none without a pointer.
abbrev pub PublishedAt : Db → Option PublishedPointer → Option Revision → Type 0
PublishedAt db none o = o ≡ none
PublishedAt db (some p) o =
    (r : Revision) × (o ≡ some r)
    × (db.revisions p.revision_id ≡ some r)
    × (r.workflow_status ≡ WorkflowStatus.published)

-- An entry as its row, its draft pointer and its published pointer have it.
pub record Reads (db : Db) (entry_id : String) (row : EntryRow) (x : Entry) : Type 0 where
  pub read : get_entry db row.model_id entry_id ≡ ok x
  pub id : x.id ≡ entry_id
  pub model_id : x.model_id ≡ row.model_id
  pub status : x.status ≡ row.status
  pub pointer : DraftPointer
  pub pointed : db.draft_pointers entry_id ≡ some pointer
  pub draft_id : x.current_draft_revision_id ≡ pointer.revision_id
  pub draft : db.revisions pointer.revision_id ≡ some x.current_draft_revision
  pub workflow_status : x.workflow_status ≡ x.current_draft_revision.workflow_status
  pub published_id :
      x.current_published_revision_id
      ≡ map_option (λ (p : PublishedPointer). p.revision_id) (db.published_pointers entry_id)
  pub published : PublishedAt db (db.published_pointers entry_id) x.current_published_revision

module _ (db : Db) (valid : IsValid db) (e : String) (row : EntryRow)
    (f : db.entries e ≡ some row) where
  revision_model :
      (j : String) (r : Revision)
      → db.revisions j ≡ some r
      → r.entry_id ≡ e
      → r.model_id ≡ row.model_id
  revision_model j r g own =
      let o = valid.owned j r g in
      let same : row ≡ o.row = (let k = sym f ∙ (ap db.entries (sym own) ∙ o.entry_row) in cc) in
      cc (o.of_model)

  get_published-total :
      (o : Option PublishedPointer)
      → db.published_pointers e ≡ o
      → (p : Option Revision) × (get_published db row.model_id e
            (map_option (λ (p : PublishedPointer). p.revision_id) o)
          ≡ ok p)
        × PublishedAt db o p
  unfolding get_published
  get_published-total none h = (none, refl, refl)
  get_published-total (some p) h =
      let l = valid.consistent.pointed e p h in
      let read =
        get_revision-row db row.model_id e p.revision_id l.revision l.row l.of_entry
          (revision_model p.revision_id l.revision l.row l.of_entry) in
      (some l.revision, rw read refl, (l.revision, refl, l.row, l.published))

  -- In valid tables the entry of every row can be read, with the revision of its draft pointer as its
  -- draft, and with the revision of its published pointer, which is in the state `published`, where it
  -- has such a pointer, and with none where it has not.
  pub get_entry-total : (x : Entry) × Reads db e row x
  unfolding get_entry
  get_entry-total =
      let d = valid.drafted e row f in
      let (s, locked, summary, draft, published) = lock_entry-total db e row d f in
      let read =
        get_revision-row db row.model_id e d.pointer.revision_id d.revision d.revision_row
          d.of_entry (revision_model d.pointer.revision_id d.revision d.revision_row d.of_entry) in
      let (p, q, live) = get_published-total (db.published_pointers e) refl in
      (
        record { summary = s; current_draft_revision = d.revision; current_published_revision = p },
        record {
          read = rw (locked, draft, published, read, q) refl;
          id = ap (λ (x : EntrySummary). x.id) summary;
          model_id = ap (λ (x : EntrySummary). x.model_id) summary;
          status = ap (λ (x : EntrySummary). x.status) summary;
          pointer = d.pointer;
          pointed = d.pointed;
          draft_id = draft;
          draft = d.revision_row;
          workflow_status = ap (λ (x : EntrySummary). x.workflow_status) summary;
          published_id = published;
          published = live;
        },
      )

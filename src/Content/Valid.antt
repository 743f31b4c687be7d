-- ===== src/Content/Valid.antt =====
-- The invariant of the tables of internal/content, and that the writes of a draft keep it.
pub mod Readable
pub mod Drafted
pub mod Archived
pub mod Calls
pub mod Published
use golang_cms.Prelude.{
  String, Bool, Option, none, some, ◌≡◌, refl, ◌∙◌, sym, ap, ◌=s=◌, ◌&&◌, true, arith, eq_iff,
}
use golang_cms.AppError.{Result, ok, err, guard, ◌>>◌, ◌>>=◌, resource_not_found}
use golang_cms.Content.Types.{
  Revision, EntryRow, Entry, EntrySummary, DraftPointer, PublishedPointer, Db,
}
use golang_cms.Content.Invariant.{IsConsistent}
use golang_cms.Content.Repository.{lock_entry, get_revision, get_published, get_entry}

-- The draft of an entry: its pointer, and the revision behind it.
pub record HasDraft (db : Db) (entry_id : String) (row : EntryRow) : Type 0 where
  pub pointer : DraftPointer
  pub pointed : db.draft_pointers entry_id ≡ some pointer
  pub of_model : pointer.model_id ≡ row.model_id
  pub revision : Revision
  pub revision_row : db.revisions pointer.revision_id ≡ some revision
  pub of_entry : revision.entry_id ≡ entry_id

-- The entry that a revision belongs to, in the revision's model.
pub record IsOwned (db : Db) (r : Revision) : Type 0 where
  pub row : EntryRow
  pub entry_row : db.entries r.entry_id ≡ some row
  pub of_model : row.model_id ≡ r.model_id

-- Published pointers and published revisions match, each revision belongs to an entry of its model,
-- and the entries with a draft pointer are the entries there are.
pub record IsValid (db : Db) : Type 0 where
  pub consistent : IsConsistent db
  pub owned : (j : String) (r : Revision) → db.revisions j ≡ some r → IsOwned db r
  pub drafted : (e : String) (row : EntryRow) → db.entries e ≡ some row → HasDraft db e row
  pub no_stray : (e : String) → db.entries e ≡ none → db.draft_pointers e ≡ none

-- ===== src/Content/Valid/Drafted.antt =====
-- A new draft keeps the invariant.
use golang_cms.Prelude.{
  String, true, false, Option, none, some, ◌=s=◌, put_self, put_other, ◌≡◌, refl, ◌∙◌, sym, ap,
  arith, eq_iff, ◌≢◌, ◌⊎◌, inl, inr, Bool-cases, =s=_ne, Table, subst,
}
use golang_cms.Content.Types.{
  WorkflowStatus, Revision, EntryRow, DraftPointer, PublishedPointer, Db,
}
use golang_cms.Content.Env.{RevisionKey}
use golang_cms.Content.Repository.{map_option}
use golang_cms.Content.Invariant.{IsConsistent}
use golang_cms.Content.Valid.{HasDraft, IsOwned, IsValid}
use golang_cms.Content.Drafting.Steps.{drafted}
use golang_cms.Content.Drafting.Written.{DraftWritten}

-- The entry of a new draft is new, or of the same model.
abbrev pub Fits : RevisionKey → Db → Type 0
Fits key db =
    (db.entries key.entry_id ≡ none)
    ⊎ ((row : EntryRow) × (db.entries key.entry_id ≡ some row) × (row.model_id ≡ key.model_id))

module _ (key : RevisionKey) (revision : Revision) (row : EntryRow) (db db' : Db)
    (valid : IsValid db) (done : DraftWritten key revision row db db')
    (is_draft : revision.workflow_status ≡ WorkflowStatus.draft)
    (of_entry : revision.entry_id ≡ key.entry_id) (of_model : revision.model_id ≡ key.model_id)
    (row_model : row.model_id ≡ key.model_id) (fits : Fits key db) where
  older : (j : String) (r : Revision) → db.revisions j ≡ some r → key.id ≢ j
  older j r f same = let g = sym (ap db.revisions same) ∙ done.fresh in cc (f)

  kept : (j : String) (r : Revision) → db.revisions j ≡ some r → db'.revisions j ≡ some r
  kept j r f =
      ap (λ (t : Table Revision). t j) done.revisions
      ∙ (put_other key.id j revision db.revisions (older j r f) ∙ f)

  new_revision : db'.revisions key.id ≡ some revision
  new_revision =
      ap (λ (t : Table Revision). t key.id) done.revisions ∙ put_self key.id revision db.revisions

  new_row : db'.entries key.entry_id ≡ some row
  new_row =
      ap (λ (t : Table EntryRow). t key.entry_id) done.entries
      ∙ put_self key.entry_id row db.entries

  other_row : (e : String) → key.entry_id ≢ e → db'.entries e ≡ db.entries e
  other_row e ne =
      ap (λ (t : Table EntryRow). t e) done.entries ∙ put_other key.entry_id e row db.entries ne

  old_or_new :
      (j : String) (r : Revision)
      → db'.revisions j ≡ some r
      → (db.revisions j ≡ some r) ⊎ ((key.id ≡ j) × (revision ≡ r))
  old_or_new j r h = elim (Bool-cases (key.id =s= j)) [
    | inl same ↦
        let p = (eq_iff key.id j).0 same in
        inr (p, let g = sym new_revision ∙ (ap db'.revisions p ∙ h) in cc)
    | inr differ ↦ inl (
        sym (
          ap (λ (t : Table Revision). t j) done.revisions
          ∙ put_other key.id j revision db.revisions (=s=_ne key.id j differ))
        ∙ h)
  ]

  consistent : IsConsistent db'
  consistent = record {
    pointed = λ e p h.
        let l =
          valid.consistent.pointed e p
            (ap (λ (t : Table PublishedPointer). t e) (sym done.published) ∙ h) in
        record {
          revision = l.revision;
          row = kept p.revision_id l.revision l.row;
          of_entry = l.of_entry;
          published = l.published;
        };
    live = λ j r h s. elim (old_or_new j r h) [
      | inl f ↦
          ap
            (λ (t : Table PublishedPointer).
              map_option (λ (p : PublishedPointer). p.revision_id) (t r.entry_id))
            done.published
          ∙ valid.consistent.live j r f s
      | inr (_, same) ↦ absurd (cc (is_draft))
    ];
  }

  owned : (j : String) (r : Revision) → db'.revisions j ≡ some r → IsOwned db' r
  owned j r h = elim (old_or_new j r h) [
    | inr (_, same) ↦ subst (IsOwned db') same (record {
      row = row;
      entry_row = ap db'.entries of_entry ∙ new_row;
      of_model = row_model ∙ sym of_model;
    })
    | inl f ↦
        let o = valid.owned j r f in
        elim (Bool-cases (key.entry_id =s= r.entry_id)) [
          | inr differ ↦ record {
            row = o.row;
            entry_row = other_row r.entry_id (=s=_ne _ _ differ) ∙ o.entry_row;
            of_model = o.of_model;
          }
          | inl same ↦
              let p = (eq_iff key.entry_id r.entry_id).0 same in
              let before = ap db.entries p ∙ o.entry_row in
              record {
                row = row;
                entry_row = sym (ap db'.entries p) ∙ new_row;
                of_model = elim fits [
                  | inl absent ↦ absurd (cc)
                  | inr (old, g, m) ↦ cc (row_model, o.of_model)
                ];
              }
        ]
  ]

  drafted-model :
      (o : Option DraftPointer)
      → db.draft_pointers key.entry_id ≡ o
      → (drafted key o).model_id ≡ key.model_id
  drafted-model none h = refl
  drafted-model (some p) h = elim fits [
    | inl absent ↦ absurd (let k = valid.no_stray key.entry_id absent in cc)
    | inr (old, g, m) ↦ let d = valid.drafted key.entry_id old g in cc (d.pointed, d.of_model)
  ]

  drafted-id : (o : Option DraftPointer) → (drafted key o).revision_id ≡ key.id
  drafted-id none = refl
  drafted-id (some p) = refl

  new_pointer :
      db'.draft_pointers key.entry_id ≡ some (drafted key (db.draft_pointers key.entry_id))
  new_pointer =
      let same : (key.entry_id =s= key.entry_id) ≡ true =
        ground (arith, eq_iff key.entry_id key.entry_id) in
      done.drafts key.entry_id ∙ rw same refl

  new_draft : HasDraft db' key.entry_id row
  new_draft = record {
    pointer = drafted key (db.draft_pointers key.entry_id);
    pointed = new_pointer;
    of_model = drafted-model (db.draft_pointers key.entry_id) refl ∙ sym row_model;
    revision = revision;
    revision_row = ap db'.revisions (drafted-id (db.draft_pointers key.entry_id)) ∙ new_revision;
    of_entry = of_entry;
  }

  old_draft :
      (e : String) (r : EntryRow) → key.entry_id ≢ e → db'.entries e ≡ some r → HasDraft db' e r
  old_draft e r ne h =
      let d = valid.drafted e r (sym (other_row e ne) ∙ h) in
      let differ : (key.entry_id =s= e) ≡ false = ground (arith, eq_iff key.entry_id e) in
      record {
        pointer = d.pointer;
        pointed = done.drafts e ∙ rw differ d.pointed;
        of_model = d.of_model;
        revision = d.revision;
        revision_row = kept _ d.revision d.revision_row;
        of_entry = d.of_entry;
      }

  pub DraftWritten-IsValid : IsValid db'
  DraftWritten-IsValid = record {
    consistent = consistent;
    owned = owned;
    drafted = λ e r h. elim (Bool-cases (key.entry_id =s= e)) [
      | inr differ ↦ old_draft e r (=s=_ne _ _ differ) h
      | inl same ↦
          let p = (eq_iff key.entry_id e).0 same in
          let q : row ≡ r = let g = sym new_row ∙ (ap db'.entries p ∙ h) in cc in
          subst (λ x. HasDraft db' e x) q (subst (λ x. HasDraft db' x row) p new_draft)
    ];
    no_stray = λ e h. elim (Bool-cases (key.entry_id =s= e)) [
      | inr differ ↦
          let ne = =s=_ne key.entry_id e differ in
          done.drafts e ∙ rw differ (valid.no_stray e (sym (other_row e ne) ∙ h))
      | inl same ↦
          let p = (eq_iff key.entry_id e).0 same in
          absurd (let g = sym new_row ∙ (ap db'.entries p ∙ h) in cc)
    ];
  }

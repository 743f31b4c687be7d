-- ===== src/Content/Valid/Archived.antt =====
-- `ArchiveEntry` and the review workflow keep the invariant.
use golang_cms.Prelude.{
  String, Bool, true, false, not, Option, none, some, ◌=s=◌, put, put_self, put_other, ◌≡◌, refl,
  ◌∙◌, sym, ap, arith, eq_iff, inl, inr, Option-cases, Bool-cases, =s=_ne, Table, subst, ◌++◌, [],
  ◌∷◌,
}
use golang_cms.AppError.{conflicting, ok, ok-bind, ok-guard}
use golang_cms.Permission.Defs.{require_model_permission}
use golang_cms.Content.Types.{
  EntryStatus, Revision, Entry, EntryRow, DraftPointer, PublishedPointer, Db, is_archived,
}
use golang_cms.Content.Env.{Env, audit_event}
use golang_cms.Content.Unique.{Replaced, delete_unique_values-Replaced}
use golang_cms.Content.Repository.{
  get_model, lock_entry, get_entry, update_entry, delete_unique_values, map_option,
}
use golang_cms.Content.Invariant.{IsLive, get_entry-published}
use golang_cms.Content.Invariant.Kept.{Outcome-IsConsistent}
use golang_cms.Content.Workflow.Actions.{Action, transition_of}
use golang_cms.Content.Workflow.Effect.{append_audit-event}
use golang_cms.Content.Workflow.Outcome.{Outcome, revised, others_of}
use golang_cms.Content.Valid.{IsValid}
use golang_cms.Content.Drafting.{archive_tx, is_absent}
use golang_cms.Content.Drafting.Steps.{restated, update_entry-row}
use golang_cms.Content.Drafting.Opened.{lock_entry-rows}

-- What an archival has found and written.
pub record Archived (env : Env) (model_id entry_id : String) (db db' : Db) : Type 0 where
  pub row : EntryRow
  pub entry_row : db.entries entry_id ≡ some row
  pub of_model : row.model_id ≡ model_id
  pub was_alive : is_archived row.status ≡ false
  pub not_published : db.published_pointers entry_id ≡ none
  pub entries : db'.entries ≡ put entry_id (restated EntryStatus.archived env.now row) db.entries
  pub revisions : db'.revisions ≡ db.revisions
  pub drafts : db'.draft_pointers ≡ db.draft_pointers
  pub published : db'.published_pointers ≡ db.published_pointers
  pub unique : Replaced model_id entry_id (λ f v. false) db.unique_values db'.unique_values
  pub models : db'.models ≡ db.models
  pub others : others_of db' ≡ others_of db
  pub events : db'.workflow_events ≡ db.workflow_events
  pub audited :
      (id : String) × (db'.audit_events
        ≡ db.audit_events
          ++ audit_event env id "content_entry_archived" "content_entry" entry_id ∷ [])

absent-none :
    {A B : Type 0} (f : A → B) (o : Option A) (p : Option B)
    → p ≡ map_option f o
    → is_absent p ≡ true
    → o ≡ none
absent-none f none p h k = refl
absent-none f (some a) p h k = absurd (let l = rw h at k in cc)

not-true : (b : Bool) → not b ≡ true → b ≡ false
not-true b h = ground arith

pub archive_tx-Archived :
    (env : Env) (m e : String) (db db' : Db)
    → archive_tx env m e db ≡ ok (tt, db')
    → Archived env m e db db'
unfolding archive_tx
archive_tx-Archived env m e db db' h =
    ok-bind (require_model_permission env.principal m "content.archive") _ h λ _ e1 k1.
      ok-bind (get_model db m) _ k1 λ _ e2 k2. ok-bind (lock_entry db m e) _ k2 λ s e3 k3.
        ok-guard (not (is_archived s.status)) (conflicting "resource_archived") _ k3 λ e4 k4.
          ok-bind (get_entry db m e) _ k4 λ current e5 k5.
            ok-guard (is_absent current.current_published_revision_id)
              (conflicting "published_entry_archive_forbidden") _ k5
              λ e6 k6.
                let db1 = update_entry m e EntryStatus.archived env.now db in
                let db2 = record db1 {
                  unique_values = delete_unique_values m e db1.unique_values;
                } in
                let (row, _, _, f1, f2, _, _, _, _, f7, _) = lock_entry-rows db m e s e3 in
                let w1 = update_entry-row m e EntryStatus.archived env.now db row f1 f2 in
                let (audit_id, w2) =
                  append_audit-event env "content_entry_archived" "content_entry" e db2 db' k6 in
                let audit = audit_event env audit_id "content_entry_archived" "content_entry" e in
                record {
                  row = row;
                  entry_row = f1;
                  of_model = f2;
                  was_alive = ap is_archived (sym f7) ∙ not-true _ e4;
                  not_published =
                      absent-none (λ (p : PublishedPointer). p.revision_id)
                        (db.published_pointers e) _ (get_entry-published db m e current e5) e6;
                  entries = ap (λ (d : Db). d.entries) w2 ∙ ap (λ (d : Db). d.entries) w1;
                  revisions = ap (λ (d : Db). d.revisions) w2 ∙ ap (λ (d : Db). d.revisions) w1;
                  drafts =
                      ap (λ (d : Db). d.draft_pointers) w2 ∙ ap (λ (d : Db). d.draft_pointers) w1;
                  published =
                      ap (λ (d : Db). d.published_pointers) w2
                      ∙ ap (λ (d : Db). d.published_pointers) w1;
                  unique =
                      subst (Replaced m e (λ f v. false) db.unique_values)
                        (sym (
                          ap (λ (d : Db). d.unique_values) w2
                          ∙ ap (λ (d : Db). delete_unique_values m e d.unique_values) w1))
                        (delete_unique_values-Replaced m e db.unique_values);
                  models = ap (λ (d : Db). d.models) w2 ∙ ap (λ (d : Db). d.models) w1;
                  others = ap others_of w2 ∙ ap others_of w1;
                  events =
                      ap (λ (d : Db). d.workflow_events) w2 ∙ ap (λ (d : Db). d.workflow_events) w1;
                  audited = (
                    audit_id,
                    ap (λ (d : Db). d.audit_events) w2
                        ∙ ap (λ (d : Db). d.audit_events ++ audit ∷ []) w1,
                  );
                }

module _ (env : Env) (m e : String) (db db' : Db) (valid : IsValid db)
    (done : Archived env m e db db') where
  same_rows :
      (j : String) (r : EntryRow)
      → db.entries j ≡ some r
      → (r' : EntryRow) × (db'.entries j ≡ some r') × (r'.model_id ≡ r.model_id)
  same_rows j r f = elim (Bool-cases (e =s= j)) [
    | inr differ ↦ (
      r,
      ap (λ (t : Table EntryRow). t j) done.entries
          ∙ (put_other e j _ db.entries (=s=_ne e j differ) ∙ f),
      refl,
    )
    | inl same ↦
        let p = (eq_iff e j).0 same in
        (
          restated EntryStatus.archived env.now done.row,
          sym (ap db'.entries p)
              ∙ (ap (λ (t : Table EntryRow). t e) done.entries ∙ put_self e _ db.entries),
          let k = sym done.entry_row ∙ (ap db.entries p ∙ f) in cc,
        )
  ]

  rows_back :
      (j : String) (r' : EntryRow)
      → db'.entries j ≡ some r'
      → (r : EntryRow) × (db.entries j ≡ some r) × (r'.model_id ≡ r.model_id)
  rows_back j r' h = elim (Option-cases (db.entries j)) [
    | inr (r, f) ↦ let (r'', g, k) = same_rows j r f in (r, f, cc)
    | inl n ↦ elim (Bool-cases (e =s= j)) [
      | inl same ↦
          absurd (
            let p = (eq_iff e j).0 same in let k = sym done.entry_row ∙ (ap db.entries p ∙ n) in cc)
      | inr differ ↦ absurd (
          let k =
            sym n
            ∙ (sym (
                  ap (λ (t : Table EntryRow). t j) done.entries
                  ∙ put_other e j _ db.entries (=s=_ne e j differ))
                ∙ h) in
          cc)
    ]
  ]

  pub Archived-IsValid : IsValid db'
  Archived-IsValid = record {
    consistent = record {
      pointed = λ i p h.
          subst (λ t. IsLive t i p.revision_id) (sym done.revisions)
            (valid.consistent.pointed i p
              (ap (λ (t : Table PublishedPointer). t i) (sym done.published) ∙ h));
      live = λ j r h s.
          ap
            (λ (t : Table PublishedPointer).
              map_option (λ (p : PublishedPointer). p.revision_id) (t r.entry_id))
            done.published
          ∙ valid.consistent.live j r (ap (λ (t : Table Revision). t j) (sym done.revisions) ∙ h) s;
    };
    owned = λ j r h.
        let o = valid.owned j r (ap (λ (t : Table Revision). t j) (sym done.revisions) ∙ h) in
        let (row, f, g) = same_rows r.entry_id o.row o.entry_row in
        record { row = row; entry_row = f; of_model = g ∙ o.of_model };
    drafted = λ i r h.
        let (row, f, g) = rows_back i r h in
        let d = valid.drafted i row f in
        record {
          pointer = d.pointer;
          pointed = ap (λ (t : Table DraftPointer). t i) done.drafts ∙ d.pointed;
          of_model = d.of_model ∙ sym g;
          revision = d.revision;
          revision_row =
              ap (λ (t : Table Revision). t d.pointer.revision_id) done.revisions ∙ d.revision_row;
          of_entry = d.of_entry;
        };
    no_stray = λ i h.
        ap (λ (t : Table DraftPointer). t i) done.drafts ∙ elim (Option-cases (db.entries i)) [
          | inl n ↦ valid.no_stray i n
          | inr (r, f) ↦ absurd (let (_, g, _) = same_rows i r f in cc)
        ];
  }

module _ (env : Env) (a : Action) (m e rid : String) (db db' : Db) (result current : Entry)
    (target : Revision) (valid : IsValid db)
    (done : Outcome env (transition_of a) m e rid db result db' current target) where
  revised-of :
      (j : String) (r : Revision)
      → ((revised env (transition_of a) rid current.current_published_revision_id j r).entry_id
          ≡ r.entry_id)
        × ((revised env (transition_of a) rid current.current_published_revision_id j r).model_id
            ≡ r.model_id)
  revised-of j r = ground arith

  row_of :
      (j : String) (r : Revision)
      → db.revisions j ≡ some r
      → (r' : Revision) × (db'.revisions j ≡ some r')
        × (r'.entry_id ≡ r.entry_id)
        × (r'.model_id ≡ r.model_id)
  row_of j r f =
      let (p, q) = revised-of j r in
      (
        revised env (transition_of a) rid current.current_published_revision_id j r,
        done.rows j ∙ rw f refl,
        p,
        q,
      )

  row_back :
      (j : String) (r' : Revision)
      → db'.revisions j ≡ some r'
      → (r : Revision) × (db.revisions j ≡ some r)
        × (r'.entry_id ≡ r.entry_id)
        × (r'.model_id ≡ r.model_id)
  row_back j r' h = elim (Option-cases (db.revisions j)) [
    | inl n ↦ absurd (let k : db'.revisions j ≡ none = done.rows j ∙ rw n refl in cc)
    | inr (r, f) ↦ let (x, g, p, q) = row_of j r f in (r, f, cc, cc)
  ]

  pub Outcome-IsValid : IsValid db'
  Outcome-IsValid = record {
    consistent =
        Outcome-IsConsistent env a m e rid db db' result current target valid.consistent done;
    owned = λ j r h.
        let (r0, f, p, q) = row_back j r h in
        let o = valid.owned j r0 f in
        record {
          row = o.row;
          entry_row =
              ap (λ (t : Table EntryRow). t r.entry_id) done.entries
              ∙ (ap db.entries p ∙ o.entry_row);
          of_model = o.of_model ∙ sym q;
        };
    drafted = λ i r h.
        let d = valid.drafted i r (ap (λ (t : Table EntryRow). t i) (sym done.entries) ∙ h) in
        let (r', f, p, _) = row_of d.pointer.revision_id d.revision d.revision_row in
        record {
          pointer = d.pointer;
          pointed = ap (λ (t : Table DraftPointer). t i) done.drafts ∙ d.pointed;
          of_model = d.of_model;
          revision = r';
          revision_row = f;
          of_entry = p ∙ d.of_entry;
        };
    no_stray = λ i h.
        ap (λ (t : Table DraftPointer). t i) done.drafts
        ∙ valid.no_stray i (ap (λ (t : Table EntryRow). t i) (sym done.entries) ∙ h);
  }

-- ===== src/Content/Drafting/Written.antt =====
-- What `createDraftInTx` and `UpdateEntry` have written where they succeed.
use golang_cms.Prelude.{
  ◌+◌, String, true, false, none, some, ◌=s=◌, if◌then◌else◌, Table, put, ◌≡◌, refl, ◌∙◌, sym, ap,
}
use golang_cms.AppError.{Result, ok, err, ok-bind}
use golang_cms.Permission.Defs.{require_model_permission}
use golang_cms.Content.Types.{Revision, EntrySummary, Entry, EntryRow, DraftPointer, Db}
use golang_cms.Content.Repository.{
  get_entry, create_entry, create_revision, set_draft_pointer, update_entry,
}
use golang_cms.Content.Env.{Env, RevisionKey, append_audit}
use golang_cms.Content.Workflow.{rebuild_unique_values}
use golang_cms.Content.Drafting.{
  lock_schema, write_revision_derivatives, draft_revision, new_entry_row, occupy_values,
  create_draft_in_tx, open_draft, updated_entry, update_tx,
}
use golang_cms.Content.Drafting.Steps.{
  Same-trans, write_revision_derivatives-Same, occupy_values-Same, rebuild_unique_values-Same,
  append_audit-Same, create_revision-row, create_entry-row, drafted, set_draft_pointer-row,
  restated, update_entry-row,
}
use golang_cms.Content.Drafting.Opened.{Opened, open_draft-Opened}

-- A new draft has been written: a fresh revision, the entry's draft pointer, and its row.
pub record DraftWritten (key : RevisionKey) (revision : Revision) (row : EntryRow) (db db' : Db)
    : Type 0 where
  pub fresh : db.revisions key.id ≡ none
  pub revisions : db'.revisions ≡ put key.id revision db.revisions
  pub drafts :
      (e : String)
      → db'.draft_pointers e ≡ (
          if key.entry_id =s= e
          then some (drafted key (db.draft_pointers e))
          else db.draft_pointers e)
  pub entries : db'.entries ≡ put key.entry_id row db.entries
  pub published : db'.published_pointers ≡ db.published_pointers

set_draft_pointer-kept :
    (m e rid : String) (db : Db)
    → ((set_draft_pointer m e rid db).entries ≡ db.entries)
      × ((set_draft_pointer m e rid db).revisions ≡ db.revisions)
      × ((set_draft_pointer m e rid db).published_pointers ≡ db.published_pointers)
unfolding set_draft_pointer
set_draft_pointer-kept m e rid db = (refl, refl, refl)

drafts_after :
    (key : RevisionKey) (db db2 : Db) (e : String)
    → db2.draft_pointers ≡ db.draft_pointers
    → (set_draft_pointer key.model_id key.entry_id key.id db2).draft_pointers e ≡ (
        if key.entry_id =s= e
        then some (drafted key (db.draft_pointers e))
        else db.draft_pointers e)
drafts_after key db db2 e same =
    set_draft_pointer-row key db2 e
    ∙ ap (λ (t : Table DraftPointer). if key.entry_id =s= e then some (drafted key (t e)) else t e)
        same

-- An update that returns has found its base to be the entry's draft, and has written a new one.
pub update_tx-DraftWritten :
    (env : Env) (key : RevisionKey) (base raw : String) (db db' : Db) (result : Entry)
    → update_tx env key base raw db ≡ ok (result, db')
    → (entry : EntrySummary) × (current : Revision) × (content : String) × (row : EntryRow)
      × (pointer : DraftPointer) × Opened key base db entry current row pointer
      × DraftWritten key
          (draft_revision env key (current.number + 1) content)
          (restated entry.status env.now row)
          db
          db'
      × (result ≡ updated_entry env entry (draft_revision env key (current.number + 1) content))
unfolding update_tx draft_revision
update_tx-DraftWritten env key base raw db db' result h =
    ok-bind (open_draft env key base raw db) _ h λ (entry, (model, (content, current))) e0 k0.
      let revision = draft_revision env key (current.number + 1) content in
      ok-bind (create_revision revision db) _ k0 λ (_, db1) e1 k1.
        ok-bind (write_revision_derivatives env revision model.fields current.id true false db1) _
          k1
          λ (_, db2) e2 k2.
            let db3 = set_draft_pointer key.model_id key.entry_id key.id db2 in
            ok-bind (rebuild_unique_values env key.model_id key.entry_id db3) _ k2 λ (_, db4) e4 k4.
              let db5 = update_entry key.model_id key.entry_id entry.status env.now db4 in
              ok-bind (append_audit env "content_revision_created" "content_revision" key.id db5) _
                k4
                λ (_, db6) e6 k6.
                  let (row, pointer, opened) =
                    open_draft-Opened env key base raw db entry model content current e0 in
                  let (fresh, w1) = create_revision-row revision db db1 e1 in
                  let s2 =
                    write_revision_derivatives-Same env revision model.fields current.id true false
                      db1 db2 e2 in
                  let (p3, q3, r3) = set_draft_pointer-kept key.model_id key.entry_id key.id db2 in
                  let s4 = rebuild_unique_values-Same env key.model_id key.entry_id db3 db4 e4 in
                  let s6 =
                    append_audit-Same env "content_revision_created" "content_revision" key.id db5
                      db6 e6 in
                  let rows4 : db4.entries ≡ db.entries =
                    s4.entries ∙ (p3 ∙ (s2.entries ∙ ap (λ (d : Db). d.entries) w1)) in
                  let w5 =
                    update_entry-row key.model_id key.entry_id entry.status env.now db4 row
                      (ap (λ t. t key.entry_id) rows4 ∙ opened.entry_row) opened.of_model in
                  let last : db6 ≡ db' =
                    ap (λ (x : Result (Entry × Db)). elim x [ ok (_, d) ↦ d | err _ ↦ db ]) k6 in
                  (
                    entry,
                    current,
                    content,
                    row,
                    pointer,
                    opened,
                    record {
                      fresh = fresh;
                      revisions =
                          sym (ap (λ (d : Db). d.revisions) last)
                          ∙ (s6.revisions
                              ∙ (ap (λ (d : Db). d.revisions) w5
                                  ∙ (s4.revisions
                                      ∙ (q3 ∙ (s2.revisions ∙ ap (λ (d : Db). d.revisions) w1)))));
                      drafts = λ e.
                          ap (λ (t : Table DraftPointer). t e)
                            (sym (ap (λ (d : Db). d.draft_pointers) last)
                              ∙ (s6.drafts ∙ (ap (λ (d : Db). d.draft_pointers) w5 ∙ s4.drafts)))
                          ∙ drafts_after key db db2 e
                              (s2.drafts ∙ ap (λ (d : Db). d.draft_pointers) w1);
                      entries =
                          sym (ap (λ (d : Db). d.entries) last)
                          ∙ (s6.entries
                              ∙ (ap (λ (d : Db). d.entries) w5
                                  ∙ ap (put key.entry_id (restated entry.status env.now row))
                                      rows4));
                      published =
                          sym (ap (λ (d : Db). d.published_pointers) last)
                          ∙ (s6.published
                              ∙ (ap (λ (d : Db). d.published_pointers) w5
                                  ∙ (s4.published
                                      ∙ (r3
                                          ∙ (s2.published
                                              ∙ ap (λ (d : Db). d.published_pointers) w1)))));
                    },
                    cc,
                  )

-- A creation that returns has written the first draft of a new entry.
pub create_draft_in_tx-DraftWritten :
    (env : Env) (key : RevisionKey) (raw : String) (db db' : Db) (result : Entry)
    → create_draft_in_tx env key raw db ≡ ok (result, db')
    → (content : String) × (db.entries key.entry_id ≡ none)
      × DraftWritten key (draft_revision env key 1 content) (new_entry_row env key) db db'
      × (get_entry db' key.model_id key.entry_id ≡ ok result)
unfolding create_draft_in_tx draft_revision new_entry_row
create_draft_in_tx-DraftWritten env key raw db db' result h =
    ok-bind (require_model_permission env.principal key.model_id "content.create") _ h λ _ e0 k0.
      ok-bind (lock_schema env key.model_id key raw db) _ k0 λ (model, content) e1 k1.
        let revision = draft_revision env key 1 content in
        ok-bind (create_entry (new_entry_row env key) db) _ k1 λ (_, db1) e2 k2.
          ok-bind (create_revision revision db1) _ k2 λ (_, db2) e3 k3.
            let db3 = set_draft_pointer key.model_id key.entry_id key.id db2 in
            ok-bind (write_revision_derivatives env revision model.fields "" false false db3) _ k3
              λ (_, db4) e4 k4.
                ok-bind (occupy_values env model key content db4) _ k4 λ (_, db5) e5 k5.
                  ok-bind
                    (append_audit env "content_entry_created" "content_entry" key.entry_id db5) _ k5
                    λ (_, db6) e6 k6.
                      ok-bind (get_entry db6 key.model_id key.entry_id) _ k6 λ entry e7 k7.
                        let (absent, w1) = create_entry-row (new_entry_row env key) db db1 e2 in
                        let (fresh, w2) = create_revision-row revision db1 db2 e3 in
                        let (p3, q3, r3) =
                          set_draft_pointer-kept key.model_id key.entry_id key.id db2 in
                        let s4 =
                          write_revision_derivatives-Same env revision model.fields "" false false
                            db3 db4 e4 in
                        let s5 = occupy_values-Same env model key content db4 db5 e5 in
                        let s6 =
                          append_audit-Same env "content_entry_created" "content_entry" key.entry_id
                            db5 db6 e6 in
                        let s = Same-trans db3 db4 db6 s4 (Same-trans db4 db5 db6 s5 s6) in
                        let last : db6 ≡ db' =
                          ap (λ (x : Result (Entry × Db)). elim x [ ok (_, d) ↦ d | err _ ↦ db ])
                            k7 in
                        let same : entry ≡ result = cc in
                        let earlier : db1.revisions ≡ db.revisions =
                          ap (λ (d : Db). d.revisions) w1 in
                        (
                          content,
                          absent,
                          record {
                            fresh = sym (ap (λ (t : Table Revision). t key.id) earlier) ∙ fresh;
                            revisions =
                                sym (ap (λ (d : Db). d.revisions) last)
                                ∙ (s.revisions
                                    ∙ (q3
                                        ∙ (ap (λ (d : Db). d.revisions) w2
                                            ∙ ap (put key.id revision) earlier)));
                            drafts = λ e.
                                ap (λ (t : Table DraftPointer). t e)
                                  (sym (ap (λ (d : Db). d.draft_pointers) last) ∙ s.drafts)
                                ∙ drafts_after key db db2 e (
                                    ap (λ (d : Db). d.draft_pointers) w2
                                    ∙ ap (λ (d : Db). d.draft_pointers) w1);
                            entries =
                                sym (ap (λ (d : Db). d.entries) last)
                                ∙ (s.entries
                                    ∙ (p3
                                        ∙ (ap (λ (d : Db). d.entries) w2
                                            ∙ ap (λ (d : Db). d.entries) w1)));
                            published =
                                sym (ap (λ (d : Db). d.published_pointers) last)
                                ∙ (s.published
                                    ∙ (r3
                                        ∙ (ap (λ (d : Db). d.published_pointers) w2
                                            ∙ ap (λ (d : Db). d.published_pointers) w1)));
                          },
                          ap (λ d. get_entry d key.model_id key.entry_id) (sym last)
                              ∙ (e7 ∙ ap ok same),
                        )

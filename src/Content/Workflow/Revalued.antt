-- ===== src/Content/Workflow/Revalued.antt =====
-- The unique values behind a review action.
use golang_cms.Audit.{AuditEvent}
use golang_cms.Prelude.{String, ◌||◌, List, [], ◌∷◌, ◌++◌, some, ◌≡◌, ◌∙◌, sym, ap, subst}
use golang_cms.AppError.{Result, ok}
use golang_cms.Schema.{ContentModel}
use golang_cms.Content.Types.{EventType, Entry, UniqueValue, Db}
use golang_cms.Content.Repository.{get_entry, lock_entry, get_revision, get_published}
use golang_cms.Content.Env.{Env}
use golang_cms.Content.Workflow.{refresh_unique, rebuild_unique_values}
use golang_cms.Content.Workflow.Effect.{PublishedValues}
use golang_cms.Content.Unique.{names, Replaced, rebuild_unique_values-row}

-- The entry holds exactly the values of its draft and of its published revision, as it is answered.
pub record Revalued (env : Env) (model_id entry_id : String) (result : Entry) (db db' : Db)
    : Type 0 where
  pub model : ContentModel
  pub drafted : List UniqueValue
  pub published : List UniqueValue
  pub model_row : db.models model_id ≡ some model
  pub draft_values :
      env.rules.unique_values result.current_draft_revision.content model.fields ≡ ok drafted
  pub other_values : PublishedValues env model result.current_published_revision published
  pub replaced :
      Replaced model_id entry_id
        (λ f v. names f v drafted || names f v published)
        db.unique_values
        db'.unique_values

-- The values are taken anew where the published pointer has moved, and stay elsewhere.
abbrev pub UniqueAfter : Env → EventType → String → String → Entry → Db → Db → Type 0
UniqueAfter env EventType.approved m e result db db' = Revalued env m e result db db'
UniqueAfter env EventType.unpublished m e result db db' = Revalued env m e result db db'
UniqueAfter env EventType.submitted m e result db db' = db'.unique_values ≡ db.unique_values
UniqueAfter env EventType.rejected m e result db db' = db'.unique_values ≡ db.unique_values

get_entry-same :
    (m e : String) (db3 db4 db5 : Db) (audit : AuditEvent)
    → db4 ≡ record db3 { unique_values = db4.unique_values }
    → db5 ≡ record db4 { audit_events = db4.audit_events ++ audit ∷ [] }
    → get_entry db5 m e ≡ get_entry db3 m e
unfolding get_entry lock_entry get_revision get_published
get_entry-same m e db3 db4 db5 audit p q =
    ap (λ (d : Db). get_entry d m e) q ∙ ap (λ (d : Db). get_entry d m e) p

module _ (env : Env) (m e : String) (db db3 db4 db5 : Db) (result : Entry) (audit : AuditEvent)
    (values : db3.unique_values ≡ db.unique_values) (models : db3.models ≡ db.models)
    (last : db5 ≡ record db4 { audit_events = db4.audit_events ++ audit ∷ [] })
    (read : get_entry db5 m e ≡ ok result) where
  revalued : rebuild_unique_values env m e db3 ≡ ok (tt, db4) → Revalued env m e result db db5
  revalued h =
      let (r, replaced) = rebuild_unique_values-row env m e db3 db4 h in
      let same : r.entry ≡ result =
        (let k = sym r.read ∙ (sym (get_entry-same m e db3 db4 db5 audit r.kept last) ∙ read) in
          cc) in
      let named = λ (f v : String). names f v r.drafted || names f v r.published in
      record {
        model = r.model;
        drafted = r.drafted;
        published = r.published;
        model_row = sym (ap (λ t. t m) models) ∙ r.model_row;
        draft_values =
            subst
              (λ (x : Entry).
                env.rules.unique_values x.current_draft_revision.content r.model.fields
                ≡ ok r.drafted)
              same r.draft_values;
        other_values =
            subst
              (λ (x : Entry). PublishedValues env r.model x.current_published_revision r.published)
              same r.other_values;
        replaced =
            subst (λ t. Replaced m e named t db5.unique_values) values
              (subst (λ t. Replaced m e named db3.unique_values t)
                (sym (ap (λ (d : Db). d.unique_values) last)) replaced);
      }

  unrefreshed :
      ◌≡◌ {A = Result (Unit {0} × Db)} (ok (tt, db3)) (ok (tt, db4))
      → db5.unique_values ≡ db.unique_values
  unrefreshed h =
      let same : db3 ≡ db4 = cc in
      ap (λ (d : Db). d.unique_values) last ∙ (sym (ap (λ (d : Db). d.unique_values) same) ∙ values)

  pub refresh_unique-UniqueAfter :
      (event : EventType)
      → refresh_unique env event m e db3 ≡ ok (tt, db4)
      → UniqueAfter env event m e result db db5
  unfolding refresh_unique
  refresh_unique-UniqueAfter EventType.approved h = revalued h
  refresh_unique-UniqueAfter EventType.unpublished h = revalued h
  refresh_unique-UniqueAfter EventType.submitted h = unrefreshed h
  refresh_unique-UniqueAfter EventType.rejected h = unrefreshed h

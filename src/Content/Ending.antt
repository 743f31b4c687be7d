-- ===== src/Content/Ending.antt =====
-- How a call of the content service ends.
use golang_cms.Prelude.{Option, none, some, ◌≡◌, refl, ◌⊎◌, inl, inr}
use golang_cms.AppError.{Error, Result, ok, err}
use golang_cms.Database.{within_tx}
use golang_cms.Content.Types.{Entry, Db}
use golang_cms.Content.Env.{Env}
use golang_cms.Content.Workflow.{resolve_entry_assets}

-- A call changes nothing, or its transaction has committed, and then only the resolution of the assets
-- can fail.
pub data Ending (env : Env) (f : Db → Result (Entry × Db)) (db : Db) (r : Result Entry) (db' : Db)
    : Type 0 where
  unchanged : (x : Error) → r ≡ err x → db' ≡ db → Ending env f db r db'
  committed :
      (entry : Entry)
      → f db ≡ ok (entry, db')
      → (r ≡ ok entry)
        ⊎ ((x : Error) × (r ≡ err x)
            × (env.resolve_assets entry.current_draft_revision_id ≡ some x))
      → Ending env f db r db'

resolved :
    (env : Env) (f : Db → Result (Entry × Db)) (db db' : Db) (entry : Entry)
    → f db ≡ ok (entry, db')
    → let r = resolve_entry_assets env (ok entry, db') in Ending env f db r.0 r.1
unfolding resolve_entry_assets
resolved env f db db' entry h = go (env.resolve_assets entry.current_draft_revision_id) refl
  where
    go :
        (o : Option Error)
        → env.resolve_assets entry.current_draft_revision_id ≡ o
        → let r : Result Entry × Db = elim o [ none ↦ (ok entry, db') | some x ↦ (err x, db') ] in
          Ending env f db r.0 r.1
    go none e = committed entry h (inl refl)
    go (some x) e = committed entry h (inr (x, refl, e))

pub tx-Ending :
    (env : Env) (f : Db → Result (Entry × Db)) (db : Db)
    → let r = resolve_entry_assets env (within_tx env.commit f db) in Ending env f db r.0 r.1
unfolding within_tx resolve_entry_assets
tx-Ending env f db = go (f db) refl env.commit
  where
    go :
        (w : Result (Entry × Db))
        → f db ≡ w
        → (c : Option Error)
        → let r = resolve_entry_assets env (elim w [
          | err x ↦ (err x, db)
          | ok (a, s') ↦ elim c [ none ↦ (ok a, s') | some x ↦ (err x, db) ]
        ]) in
          Ending env f db r.0 r.1
    go (err x) h c = unchanged x refl refl
    go (ok (a, s')) h none = resolved env f db s' a h
    go (ok (a, s')) h (some x) = unchanged x refl refl

-- ===== src/Accounts/Ended.antt =====
-- How a call ends: with an error and the state as it was, or as its transaction does.
use golang_cms.Prelude.{Option, none, some, ◌≡◌, refl, subst, sym}
use golang_cms.AppError.{Error, Result, ok, err}
use golang_cms.Database.{before, Tx, within_tx}
use golang_cms.Accounts.Store.{AccessDb}
use golang_cms.Accounts.Roles.{without_value}

module _ (P : AccessDb → Type 0) (db : AccessDb) where
  -- The state behind a call is that before it, or the call succeeded with one of which `P` holds.
  unfoldable pub Ended : {A : Type 0} → Result A × AccessDb → Type 0
  Ended (ok a, db') = P db'
  Ended (err e, db') = db' ≡ db

  pub before-Ended :
      {A B : Type 0} (m : Result A) (f : A → AccessDb → Result B × AccessDb)
      → ((a : A) → Ended (f a db))
      → Ended (before m f db)
  unfolding Ended before
  before-Ended (err e) f h = refl
  before-Ended (ok a) f h = h a

  pub within_tx-Ended :
      {A : Type 0} (commit : Option Error) (f : Tx AccessDb A)
      → ((a : A) (db' : AccessDb) → f db ≡ ok (a, db') → P db')
      → Ended (within_tx commit f db)
  unfolding Ended within_tx
  within_tx-Ended {A = A} commit f h = go (f db) refl commit
    where
      go :
          (r : Result (A × AccessDb))
          → f db ≡ r
          → (commit : Option Error)
          → let ended : Result A × AccessDb = elim r [
            | err e ↦ (err e, db)
            | ok (a, s') ↦ elim commit [ none ↦ (ok a, s') | some e ↦ (err e, db) ]
          ] in
            Ended ended
      go (err e) k commit = refl
      go (ok (a, s')) k none = h a s' k
      go (ok (a, s')) k (some e) = refl

  pub without_value-Ended :
      {A : Type 0} (r : Result A × AccessDb) → Ended r → Ended (without_value r)
  unfolding Ended without_value
  without_value-Ended (ok a, db') h = h
  without_value-Ended (err e, db') h = h

  pub Ended-ok :
      {A : Type 0} (r : Result A × AccessDb) (a : A) (db' : AccessDb)
      → Ended r
      → r ≡ (ok a, db')
      → P db'
  unfolding Ended
  Ended-ok r a db' e h = subst Ended h e

  pub Ended-err :
      {A : Type 0} (r : Result A × AccessDb) (x : Error) (db' : AccessDb)
      → Ended r
      → r ≡ (err x, db')
      → db' ≡ db
  unfolding Ended
  Ended-err r x db' e h = subst Ended h e

  -- What holds of both holds behind the call.
  pub Ended-state :
      {A : Type 0} (Q : AccessDb → Type 0) (r : Result A × AccessDb)
      → Ended r
      → Q db
      → ((db' : AccessDb) → P db' → Q db')
      → Q r.1
  unfolding Ended
  Ended-state Q (ok a, db') e q f = f db' e
  Ended-state Q (err x, db') e q f = subst Q (sym e) q

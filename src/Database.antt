-- ===== src/Database.antt =====
-- internal/platform/database/transaction.go: transactions as functions of the state.
pub mod Retry
use golang_cms.Prelude.{Bool, true, false, Option, none, some, ℕ, ◌≡◌, refl, ◌⊎◌, inl, inr}
use golang_cms.AppError.{Error, Result, ok, err}

-- A function that runs on a transaction's querier: it fails, or returns a value and the state that it
-- has written.
abbrev pub Tx : Type 0 → Type 0 → Type 0
Tx S A = S → Result (A × S)

module _ {S : Type 0} where
  -- `Transactor.WithinTx`: commit what the function has written, or roll it all back. `commit` is the
  -- answer of `tx.Commit`. A panic rolls back and goes on; the modelled functions do not panic.
  unfoldable pub within_tx : {A : Type 0} → Option Error → Tx S A → S → Result A × S
  within_tx commit f s = elim (f s) [
    | err e ↦ (err e, s)
    | ok (a, s') ↦ elim commit [ none ↦ (ok a, s') | some e ↦ (err e, s) ]
  ]

  -- A step before the transaction, which leaves the state.
  unfoldable pub before : {A B : Type 0} → Result A → (A → S → Result B × S) → S → Result B × S
  before (err e) f s = (err e, s)
  before (ok a) f s = f a s

  -- What holds before a call and behind its transaction holds behind the call.
  pub before-keeps :
      {A B : Type 0} (P : S → Type 0) (m : Result A) (f : A → S → Result B × S) (s : S)
      → P s
      → ((a : A) → P (f a s).1)
      → P (before m f s).1
  unfolding before
  before-keeps P (err e) f s p h = p
  before-keeps P (ok a) f s p h = h a

  pub within_tx-keeps :
      {A : Type 0} (P : S → Type 0) (commit : Option Error) (f : Tx S A) (s : S)
      → P s
      → ((a : A) (s' : S) → f s ≡ ok (a, s') → P s')
      → P (within_tx commit f s).1
  unfolding within_tx
  within_tx-keeps {A = A} P commit f s p h = go (f s) refl commit
    where
      go :
          (r : Result (A × S))
          → f s ≡ r
          → (commit : Option Error)
          → let ended : Result A × S = elim r [
            | err e ↦ (err e, s)
            | ok (a, s') ↦ elim commit [ none ↦ (ok a, s') | some e ↦ (err e, s) ]
          ] in
            P ended.1
      go (err e) k commit = p
      go (ok (a, s')) k none = h a s' k
      go (ok (a, s')) k (some e) = p

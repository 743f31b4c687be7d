-- ===== src/Database/Retry.antt =====
-- `DeadlockRetryTransactor.WithinTx`: the whole transaction runs again after a deadlock, three times
-- at most.
use golang_cms.Prelude.{
  ℕ, zero, suc, ◌<◌, Bool, true, false, ◌≡◌, refl, arith, if◌then◌else◌, ◌⊎◌, inl, inr, Bool-cases,
}
use golang_cms.AppError.{Result, err, deadlock}

-- `isDeadlock`
abbrev pub is_deadlock {ℓ} : {A : Type ℓ} → Result A → Bool
is_deadlock (err deadlock) = true
is_deadlock _ = false

below_one : (P : ℕ → Type 0) → P 0 → (j : ℕ) → j < 1 → P j
below_one P p zero h = p
below_one P p (suc j) h = absurd (omega arith)

below_two : (P : ℕ → Type 0) → P 0 → P 1 → (j : ℕ) → j < 2 → P j
below_two P p q zero h = p
below_two P p q (suc zero) h = q
below_two P p q (suc (suc j)) h = absurd (omega arith)

module _ {S A : Type 0} (runner : ℕ → S → Result A × S) where
  -- The rounds left, the number of the next attempt, and what the last one returned.
  unfoldable pub attempts : ℕ → ℕ → Result A × S → Result A × S
  attempts zero i last = last
  attempts (suc left) i last =
      let (_, s) = last in
      let r = runner i s in
      let again = attempts left (suc i) r in if is_deadlock r.0 then again else r

  unfoldable pub retry_deadlocks : S → Result A × S
  unfolding attempts
  retry_deadlocks s = attempts 3 0 (err deadlock, s)

  -- A transaction that ends in a deadlock has written nothing.
  abbrev pub RollsBack : Type 0
  RollsBack = (i : ℕ) (s : S) → is_deadlock (runner i s).0 ≡ true → (runner i s).1 ≡ s

  module _ (rolled_back : RollsBack) (s : S) where
    last_attempt : (if is_deadlock (runner 2 s).0 then runner 2 s else runner 2 s) ≡ runner 2 s
    last_attempt = ground arith

    -- For a runner that rolls back on a deadlock, the result and the state are those of exactly one
    -- attempt on the initial state, the first of at most three that does not deadlock, or the third.
    pub retry_deadlocks_once :
        (i : ℕ) × (i < 3)
        × (retry_deadlocks s ≡ runner i s)
        × ((j : ℕ) → j < i → is_deadlock (runner j s).0 ≡ true)
        × ((is_deadlock (runner i s).0 ≡ false) ⊎ (i ≡ 2))
    unfolding retry_deadlocks
    retry_deadlocks_once = elim (Bool-cases (is_deadlock (runner 0 s).0)) [
      | inr f ↦ (0, omega arith, rw f, λ j h. absurd (omega arith), inl f)
      | inl d ↦ elim (Bool-cases (is_deadlock (runner 1 s).0)) [
        | inr f ↦ (
          1,
          omega arith,
          rw d (rw (rolled_back 0 s d) (rw f)),
          below_one (λ j. is_deadlock (runner j s).0 ≡ true) d,
          inl f,
        )
        | inl e ↦ (
          2,
          omega arith,
          rw d (rw (rolled_back 0 s d) (rw e (rw (rolled_back 1 s e) last_attempt))),
          below_two (λ j. is_deadlock (runner j s).0 ≡ true) d e,
          inr refl,
        )
      ]
    ]

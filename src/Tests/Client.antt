-- ===== src/Tests/Client.antt =====
-- The protection of the client API: runs and properties.
use golang_cms.Prelude.{
  ℕ, ◌+◌, ◌-◌, ◌*◌, ◌/◌, List, [], ◌∷◌, ◌≡◌, refl, ltb, if◌then◌else◌, lookup, assign,
}
use golang_cms.Client.Protection.{
  Arithmetic, new_protection, acquire, spend, prune_pairs, ensure_capacity, fits, refill,
  save_buckets, enter, leave, release,
}
use golang_cms.Client.Protection.Server.{
  Step, enters, acquires, releases, leaves, advance, advance_all, new_server, is_running,
  end_request,
}
use golang_cms.Client.Protection.Requests.{KeepsLimits, advance_all-KeepsLimits}
use golang_cms.Client.Protection.Balance.{Balanced, acquire-Balanced}

-- Whole tokens.
abbrev whole : Arithmetic
whole = record {
  Token = ℕ;
  refilled = λ rate burst tokens updated now.
      (let n = tokens + rate * ((now - updated) / 1000000) in if ltb burst n then burst else n);
  burst = λ n. n;
  below_one = λ n. ltb n 1;
  minus_one = λ n. n - 1;
  token_retry = λ n rate. 1000000;
}

abbrev steps : List (Step whole)
steps =
    enters
    ∷ acquires "k" "1.2.3.4" 5
    ∷ enters
    ∷ acquires "k" "1.2.3.4" 6
    ∷ releases "k" "1.2.3.4"
    ∷ releases "other" "1.2.3.4"
    ∷ leaves
    ∷ []

record ServerRuns : Type 0 where
  running : (advance_all whole steps (new_server whole)).running ≡ ("k", "1.2.3.4") ∷ []
  counted : (advance_all whole steps (new_server whole)).protection.key_active "k" ≡ 1
  entered : (advance_all whole steps (new_server whole)).protection.global ≡ 1

server_runs : ServerRuns
unfolding advance advance_all new_server new_protection acquire spend prune_pairs ensure_capacity
    fits refill save_buckets enter leave release lookup assign is_running end_request
server_runs = record { running = refl; counted = refl; entered = refl }

advance_all-KeepsLimits_example : KeepsLimits whole (advance_all whole steps (new_server whole))
advance_all-KeepsLimits_example = advance_all-KeepsLimits whole steps

acquire-Balanced_example :
    Balanced whole "k" "1.2.3.4"
      (new_protection whole)
      (acquire whole "k" "1.2.3.4" 5 (new_protection whole)).0
      (acquire whole "k" "1.2.3.4" 5 (new_protection whole)).1
acquire-Balanced_example = acquire-Balanced whole "k" "1.2.3.4" 5 (new_protection whole)

-- ===== src/Client/Protection.antt =====
-- internal/client/protection.go: token buckets and limits of concurrency for each key, and for each pair
-- of a key and an address. The mutex makes each call one step. A missing count is 0, as in the Go maps.
pub mod Bounds
pub mod Balance
pub mod Server
pub mod Requests
use golang_cms.Prelude.{
  ℕ, ◌+◌, ◌-◌, ◌≤◌, String, Bool, true, false, not, ◌&&◌, ◌||◌, Option, none, some, List, [], ◌∷◌,
  ◌=s=◌, ltb, leb, if◌then◌else◌, is_empty_text, length, Assoc, lookup, assign, retain,
}
use Prim.Native.String.{◌++◌}
use golang_cms.AppError.{Error, app, too_many_requests, unavailable}

-- The arithmetic of `float64` on tokens.
pub record Arithmetic : Type 1 where
  pub Token : Type 0
  -- `math.Min(burst, tokens + elapsed.Seconds() * rate)`
  pub refilled : ℕ → ℕ → Token → ℕ → ℕ → Token
  pub burst : ℕ → Token
  pub below_one : Token → Bool
  pub minus_one : Token → Token
  pub token_retry : Token → ℕ → ℕ

-- The names of a pair and of the two buckets, with a NUL between the parts.
abbrev pub pair_of : String → String → String
pair_of key ip = key ++ "\0" ++ ip

abbrev pub key_bucket_of : String → String
key_bucket_of key = "key\0" ++ key

abbrev pub pair_bucket_of : String → String
pair_bucket_of pair = "pair\0" ++ pair

abbrev pub global_concurrency : ℕ
global_concurrency = 20

abbrev pub key_concurrency : ℕ
key_concurrency = 8

abbrev pub pair_concurrency : ℕ
pair_concurrency = 4

abbrev pub key_rate : ℕ
key_rate = 30

abbrev pub key_burst : ℕ
key_burst = 60

abbrev pub pair_rate : ℕ
pair_rate = 15

abbrev pub pair_burst : ℕ
pair_burst = 30

abbrev pub max_buckets : ℕ
max_buckets = 8192

abbrev pub max_pair_buckets : ℕ
max_pair_buckets = 256

-- Microseconds.
abbrev pub second : ℕ
second = 1000000

abbrev pub busy : Error
busy = app unavailable "content_api_busy"

abbrev pub rate_limited : Error
rate_limited = app too_many_requests "content_rate_limited"

abbrev pub concurrency_limited : Error
concurrency_limited = app too_many_requests "content_concurrency_limited"

-- A map of counts.
abbrev pub Counts : Type 0
Counts = String → ℕ

abbrev pub set_count : String → ℕ → Counts → Counts
set_count k n c j = if k =s= j then n else c j

module _ (f : Arithmetic) where
  pub record RateBucket : Type 0 where
    pub tokens : f.Token
    pub updated : ℕ
    pub last_seen : ℕ
    pub owner : String

  pub record Protection : Type 0 where
    pub global : ℕ
    pub buckets : Assoc RateBucket
    pub key_active : Counts
    pub pair_active : Counts
    pub pair_buckets : Counts

  -- The start of a request in `Global`: whether it may run.
  unfoldable pub enter : Protection → Protection × Bool
  enter p =
      if leb global_concurrency p.global
      then (p, false)
      else (record p { global = p.global + 1 }, true)

  -- The end of a request that has entered, so that the count is not 0.
  unfoldable pub leave : Protection → Protection
  leave p = record p { global = p.global - 1 }

  -- `bucket.lastSeen.Before(now.Add(-10 * time.Minute))`
  abbrev pub is_stale : ℕ → RateBucket → Bool
  is_stale now b = ltb (b.last_seen + 600000000) now

  -- How many stale buckets a key owns.
  unfoldable pub stale_of : ℕ → String → Assoc RateBucket → ℕ
  stale_of now owner [] = 0
  stale_of now owner ((k, b) ∷ m) =
      let rest = stale_of now owner m in
      if is_stale now b && (b.owner =s= owner && not (is_empty_text owner)) then rest + 1 else rest

  -- `cleanupStale`
  unfoldable pub cleanup_stale : ℕ → Protection → Protection
  cleanup_stale now p = record p {
    buckets = retain (λ b. not (is_stale now b)) p.buckets;
    pair_buckets = λ owner. p.pair_buckets owner - stale_of now owner p.buckets;
  }

  abbrev pub is_missing : Option RateBucket → ℕ
  is_missing none = 1
  is_missing (some b) = 0

  unfoldable pub fits : Protection → String → String → Bool
  fits p a b =
      leb (length p.buckets + (is_missing (lookup a p.buckets) + is_missing (lookup b p.buckets)))
        max_buckets

  -- `ensureCapacity`
  unfoldable pub ensure_capacity : ℕ → String → String → Protection → Protection × Bool
  ensure_capacity now a b p =
      if fits p a b then (p, true) else (cleanup_stale now p, fits (cleanup_stale now p) a b)

  -- `refill`
  unfoldable pub refill : String → ℕ → ℕ → ℕ → Protection → RateBucket
  refill id now rate burst p = elim (lookup id p.buckets) [
    | none ↦ record { tokens = f.burst burst; updated = now; last_seen = now; owner = "" }
    | some b ↦ record b {
      tokens = f.refilled rate burst b.tokens b.updated now;
      updated = now;
      last_seen = now;
    }
  ]

  -- `saveBuckets`
  unfoldable pub save_buckets :
      String → String → String → RateBucket → RateBucket → Bool → Protection → Protection
  save_buckets key_id pair_id key key_bucket pair_bucket pair_exists p = record p {
    buckets =
        assign pair_id (record pair_bucket { owner = key }) (assign key_id key_bucket p.buckets);
    pair_buckets =
        if pair_exists
        then p.pair_buckets
        else set_count key (p.pair_buckets key + 1) p.pair_buckets;
  }

  -- What `Acquire` answers: an error with the time to wait, or that the request may run.
  pub data Answer : Type 0 where
    refused : Error → ℕ → Answer
    admitted : Answer

  abbrev pub is_there : Option RateBucket → Bool
  is_there none = false
  is_there (some b) = true

  abbrev pub larger : ℕ → ℕ → ℕ
  larger a b = if ltb a b then b else a

  -- The part of `Acquire` behind `ensureCapacity`.
  unfoldable pub spend : String → String → ℕ → Protection → Protection × Answer
  spend key ip now p =
      let pair = pair_of key ip in
      let key_id = key_bucket_of key in
      let pair_id = pair_bucket_of pair in
      let exists = is_there (lookup pair_id p.buckets) in
      let kb = refill key_id now key_rate key_burst p in
      let pb = refill pair_id now pair_rate pair_burst p in
      if f.below_one kb.tokens || f.below_one pb.tokens
      then (
        save_buckets key_id pair_id key kb pb exists p,
        refused rate_limited
            (larger (f.token_retry kb.tokens key_rate) (f.token_retry pb.tokens pair_rate)),
      )
      else if leb key_concurrency (p.key_active key) || leb pair_concurrency (p.pair_active pair)
      then (save_buckets key_id pair_id key kb pb exists p, refused concurrency_limited second)
      else (
        record (save_buckets key_id pair_id key (record kb { tokens = f.minus_one kb.tokens })
            (record pb { tokens = f.minus_one pb.tokens }) exists p) {
              key_active = set_count key (p.key_active key + 1) p.key_active;
              pair_active = set_count pair (p.pair_active pair + 1) p.pair_active;
            },
        admitted,
      )

  -- The first `if` of `Acquire`: a key with too many pairs is cleaned up.
  unfoldable pub prune_pairs : String → String → ℕ → Protection → Protection
  prune_pairs key pair_id now p =
      if is_there (lookup pair_id p.buckets)
      then p
      else if leb max_pair_buckets (p.pair_buckets key)
      then cleanup_stale now p
      else p

  -- `Acquire`
  unfoldable pub acquire : String → String → ℕ → Protection → Protection × Answer
  acquire key ip now p =
      let pair_id = pair_bucket_of (pair_of key ip) in
      let p1 = prune_pairs key pair_id now p in
      let r = ensure_capacity now (key_bucket_of key) pair_id p1 in
      if not (is_there (lookup pair_id p.buckets)) && leb max_pair_buckets (p1.pair_buckets key)
      then (p1, refused rate_limited second)
      else if r.1
      then spend key ip now r.0
      else (r.0, refused busy second)

  -- The function that `Acquire` returns, on its first call, so that the counts are not 0.
  unfoldable pub release : String → String → Protection → Protection
  release key ip p =
      let pair = pair_of key ip in
      record p {
        key_active = set_count key (p.key_active key - 1) p.key_active;
        pair_active = set_count pair (p.pair_active pair - 1) p.pair_active;
      }

  -- `NewProtection`
  unfoldable pub new_protection : Protection
  new_protection = record {
    global = 0;
    buckets = [];
    key_active = λ k. 0;
    pair_active = λ k. 0;
    pair_buckets = λ k. 0;
  }

-- ===== src/Auth/Limiter.antt =====
-- internal/auth/limiter.go. The mutex makes each call of `allow` one step. A time is its distance
-- from a fixed instant, and `now.Sub(t) < window` is `now < t + window`, which is exact for a clock
-- that steps back too.
pub mod Bounds
use golang_cms.Prelude.{
  ℕ, ◌+◌, String, Bool, true, false, Option, none, some, List, [], ◌∷◌, ltb, leb, if◌then◌else◌,
  length, Assoc, lookup, assign, delete, retain,
}

pub record RateEntry : Type 0 where
  pub window : ℕ
  pub count : ℕ

pub record RateLimiter : Type 0 where
  pub entries : Assoc RateEntry
  pub limit : ℕ
  pub capacity : ℕ
  pub window : ℕ

unfoldable pub new_rate_limiter : ℕ → ℕ → ℕ → RateLimiter
new_rate_limiter limit capacity window = record {
  entries = [];
  limit = limit;
  capacity = capacity;
  window = window;
}

-- `now.Sub(entry.window) < l.window`
abbrev pub is_live : RateLimiter → ℕ → RateEntry → Bool
is_live l now e = ltb now (e.window + l.window)

-- The part of `allow` behind the first `if`: make room, and open a window for the key.
unfoldable pub open_window : RateLimiter → String → ℕ → RateLimiter × Bool
open_window l key now =
    let kept =
      if leb l.capacity (length l.entries) then retain (is_live l now) l.entries else l.entries in
    if leb l.capacity (length kept)
    then (record l { entries = kept }, false)
    else (record l { entries = assign key (record { window = now; count = 1 }) kept }, true)

unfoldable pub allow : RateLimiter → String → ℕ → RateLimiter × Bool
unfolding open_window
allow l key now = elim (lookup key l.entries) [
  | none ↦ open_window l key now
  | some e ↦
      if is_live l now e
      then (if leb l.limit e.count then (l, false) else (
        record l { entries = assign key (record e { count = e.count + 1 }) l.entries },
        true,
      ))
      else open_window (record l { entries = delete key l.entries }) key now
]

-- A sequence of calls, each a key and a time, and how many for one key are allowed.
unfoldable pub run : RateLimiter → List (String × ℕ) → RateLimiter
run l [] = l
run l ((key, now) ∷ calls) = run (allow l key now).0 calls

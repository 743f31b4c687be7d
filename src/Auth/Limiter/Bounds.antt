-- ===== src/Auth/Limiter/Bounds.antt =====
-- The limiter never exceeds its capacity, and a window admits at most `limit` calls.
use golang_cms.Prelude.{
  ℕ, ◌+◌, ◌≤◌, ◌<◌, String, ◌&&◌, List, [], ◌∷◌, if◌then◌else◌, length, lookup, delete, retain,
  Keyed, assign-Keyed, delete-Keyed, retain-Keyed, length-delete-le, length-retain-le,
  length-assign, arith, ◌=s=◌, Option-cases, inl, inr,
}
use golang_cms.Auth.Limiter.{RateEntry, RateLimiter, new_rate_limiter, is_live, open_window, allow}

pub record IsValid (l : RateLimiter) : Type 0 where
  pub keyed : Keyed l.entries
  pub within : length l.entries ≤ l.capacity

pub new_rate_limiter-IsValid :
    (limit capacity window : ℕ) → IsValid (new_rate_limiter limit capacity window)
unfolding new_rate_limiter
new_rate_limiter-IsValid limit capacity window = record { keyed = tt; within = omega arith }

open_window-IsValid :
    (l : RateLimiter) (key : String) (now : ℕ) → IsValid l → IsValid (open_window l key now).0
unfolding open_window
open_window-IsValid l key now v =
    let purged = retain (is_live l now) l.entries in
    let fresh : RateEntry = record { window = now; count = 1 } in
    ground (
      arith,
      retain-Keyed (is_live l now) l.entries,
      length-retain-le (is_live l now) l.entries,
      assign-Keyed key fresh l.entries,
      assign-Keyed key fresh purged,
      length-assign key fresh l.entries,
      length-assign key fresh purged,
    )

-- A call of `allow`, at whatever time and for whatever key, keeps one entry for each key and no more
-- entries than the capacity.
pub allow-IsValid :
    (l : RateLimiter) (key : String) (now : ℕ) → IsValid l → IsValid (allow l key now).0
unfolding allow
allow-IsValid l key now v =
    let cut = record l { entries = delete key l.entries } in
    let stale : IsValid cut = record {
      keyed = delete-Keyed key l.entries v.keyed;
      within = omega (arith, length-delete-le key l.entries);
    } in
    elim (Option-cases (lookup key l.entries)) [
      | inl e ↦ rw (e, allow) (open_window-IsValid l key now v)
      | inr (e, h) ↦
          let next : RateEntry = record e { count = e.count + 1 } in
          rw (h, allow)
            (ground (
              arith,
              open_window-IsValid cut key now stale,
              assign-Keyed key next l.entries,
              length-assign key next l.entries,
            ))
    ]

-- The calls of one key that are admitted.
unfoldable pub admitted : RateLimiter → String → List (String × ℕ) → ℕ
admitted l k [] = 0
admitted l k ((key, now) ∷ calls) =
    let rest = admitted (allow l key now).0 k calls in
    if key =s= k && (allow l key now).1 then rest + 1 else rest

-- The entry of a key with an open window, after a call in time.
abbrev counted : RateLimiter → String → String → ℕ → RateEntry → RateEntry
counted l k key now e =
    if key =s= k && (allow l key now).1 then record e { count = e.count + 1 } else e

-- Every call of the list comes before the given instant.
abbrev pub Before : ℕ → List (String × ℕ) → Type 0
Before end [] = Unit
Before end ((key, now) ∷ calls) = (now < end) × Before end calls

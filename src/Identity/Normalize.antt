-- ===== src/Identity/Normalize.antt =====
-- What `NewPrincipal` grants: the union of the valid codes, once each.
use golang_cms.Prelude.{
  String, Bool, true, false, not, ◌&&◌, ◌||◌, List, [], ◌∷◌, ◌≡◌, refl, arith, eq_iff, ◌=s=◌,
  if◌then◌else◌, contains, contains-append, any, contains-sort_strings, sort_strings, Distinct,
  sort_strings-Distinct,
}
use golang_cms.Identity.Types.{ScopedPermissions}
use golang_cms.Identity.Defs.{
  valid_unique, valid_unique_sorted, merged_at, merge_one, merge, scopes, collect, normalize,
  is_empty,
}

-- Some grant for the scope names the code: the loop that the services test a permission by.
unfoldable pub holds : List ScopedPermissions → String → String → Bool
holds grants id code = any (λ g. g.scope_id =s= id && contains code g.permissions) grants

contains-valid_unique :
    (c : String) (allowed seen vs : List String)
    → contains c (valid_unique allowed seen vs)
      ≡ (contains c allowed && contains c vs && not (contains c seen))
unfolding valid_unique contains
contains-valid_unique c allowed seen [] = ground arith
contains-valid_unique c allowed seen (v ∷ vs) = ground (
  arith,
  contains-valid_unique c allowed seen vs,
  contains-valid_unique c allowed (v ∷ seen) vs,
  eq_iff v c,
)

pub contains-valid_unique_sorted :
    (c : String) (vs allowed : List String)
    → contains c (valid_unique_sorted vs allowed) ≡ (contains c allowed && contains c vs)
unfolding valid_unique_sorted contains
contains-valid_unique_sorted c vs allowed = ground (
  arith,
  contains-sort_strings c (valid_unique allowed [] vs),
  contains-valid_unique c allowed [] vs,
)

valid_unique-Distinct : (allowed seen vs : List String) → Distinct (valid_unique allowed seen vs)
unfolding valid_unique contains
valid_unique-Distinct allowed seen [] = tt
valid_unique-Distinct allowed seen (v ∷ vs) = ground (
  arith,
  valid_unique-Distinct allowed seen vs,
  valid_unique-Distinct allowed (v ∷ seen) vs,
  contains-valid_unique v allowed (v ∷ seen) vs,
  eq_iff v v,
)

pub valid_unique_sorted-Distinct :
    (vs allowed : List String) → Distinct (valid_unique_sorted vs allowed)
unfolding valid_unique_sorted
valid_unique_sorted-Distinct vs allowed =
    sort_strings-Distinct (valid_unique allowed [] vs) (valid_unique-Distinct allowed [] vs)

merged_at-merge_one :
    (c id j : String) (codes : List String) (m : List ScopedPermissions)
    → contains c (merged_at j (merge_one id codes m))
      ≡ (contains c (merged_at j m) || id =s= j && contains c codes)
unfolding merged_at merge_one contains
merged_at-merge_one c id j codes [] = ground arith
merged_at-merge_one c id j codes (g ∷ m) = ground (
  arith,
  merged_at-merge_one c id j codes m,
  contains-append c g.permissions codes,
  eq_iff g.scope_id id,
  eq_iff g.scope_id j,
  eq_iff id j,
)

merged_at-merge :
    (c j : String) (m vs : List ScopedPermissions)
    → contains c (merged_at j (merge m vs))
      ≡ (contains c (merged_at j m) || not (j =s= "") && holds vs j c)
unfolding merge holds any
merged_at-merge c j m [] = ground arith
merged_at-merge c j m (v ∷ vs) = ground (
  arith,
  merged_at-merge c j (if v.scope_id =s= "" then m else merge_one v.scope_id v.permissions m) vs,
  merged_at-merge_one c v.scope_id j v.permissions m,
  eq_iff v.scope_id j,
  eq_iff v.scope_id "",
  eq_iff j "",
)

-- A scope with codes is a key of the map.
scopes-merged_at :
    (c j : String) (m : List ScopedPermissions)
    → contains c (merged_at j m) ≡ true
    → contains j (scopes m) ≡ true
unfolding merged_at contains
scopes-merged_at c j [] h = h
scopes-merged_at c j (g ∷ m) h = ground (arith, scopes-merged_at c j m, eq_iff g.scope_id j)

contains-scopes-merge_one :
    (j id : String) (codes : List String) (m : List ScopedPermissions)
    → contains j (scopes (merge_one id codes m)) ≡ (id =s= j || contains j (scopes m))
unfolding merge_one contains
contains-scopes-merge_one j id codes [] = refl
contains-scopes-merge_one j id codes (g ∷ m) = ground (
  arith,
  contains-scopes-merge_one j id codes m,
  eq_iff g.scope_id id,
  eq_iff g.scope_id j,
  eq_iff id j,
)

merge_one-Distinct :
    (id : String) (codes : List String) (m : List ScopedPermissions)
    → Distinct (scopes m)
    → Distinct (scopes (merge_one id codes m))
unfolding merge_one contains
merge_one-Distinct id codes [] d = (refl, tt)
merge_one-Distinct id codes (g ∷ m) d = ground (
  arith,
  merge_one-Distinct id codes m d.1,
  contains-scopes-merge_one g.scope_id id codes m,
  eq_iff g.scope_id id,
  eq_iff id g.scope_id,
)

merge-Distinct :
    (m vs : List ScopedPermissions) → Distinct (scopes m) → Distinct (scopes (merge m vs))
unfolding merge
merge-Distinct m [] d = d
merge-Distinct m (v ∷ vs) d = ground (
  arith,
  merge-Distinct m vs d,
  merge-Distinct (merge_one v.scope_id v.permissions m) vs
      (merge_one-Distinct v.scope_id v.permissions m d),
)

contains_of_is_empty : (c : String) (xs : List String) → is_empty xs ≡ true → contains c xs ≡ false
unfolding contains
contains_of_is_empty c [] h = refl
contains_of_is_empty c (x ∷ xs) h = cc

contains-scopes-collect :
    (allowed : List String) (m : List ScopedPermissions) (ids : List String) (j : String)
    → contains j ids ≡ false
    → contains j (scopes (collect allowed m ids)) ≡ false
unfolding collect contains
contains-scopes-collect allowed m [] j h = h
contains-scopes-collect allowed m (id ∷ ids) j h =
    ground (arith, contains-scopes-collect allowed m ids j)

collect-Distinct :
    (allowed : List String) (m : List ScopedPermissions) (ids : List String)
    → Distinct ids
    → Distinct (scopes (collect allowed m ids))
unfolding collect
collect-Distinct allowed m [] d = d
collect-Distinct allowed m (id ∷ ids) d =
    ground (arith, collect-Distinct allowed m ids d.1, contains-scopes-collect allowed m ids id d.0)

holds-collect :
    (allowed : List String) (m : List ScopedPermissions) (ids : List String) (j c : String)
    → holds (collect allowed m ids) j c
      ≡ (contains j ids && (contains c allowed && contains c (merged_at j m)))
unfolding collect holds any contains
holds-collect allowed m [] j c = refl
holds-collect allowed m (id ∷ ids) j c = ground (
  arith,
  holds-collect allowed m ids j c,
  contains-valid_unique_sorted c (merged_at j m) allowed,
  contains_of_is_empty c (valid_unique_sorted (merged_at j m) allowed),
  eq_iff id j,
)

-- A normalized list names each scope at most once.
pub normalize-Distinct :
    (allowed : List String) (vs : List ScopedPermissions) → Distinct (scopes (normalize allowed vs))
unfolding normalize
normalize-Distinct allowed vs =
    collect-Distinct allowed (merge [] vs) (sort_strings (scopes (merge [] vs)))
      (sort_strings-Distinct (scopes (merge [] vs)) (merge-Distinct [] vs tt))

-- Normalizing keeps exactly the valid codes of the named scopes.
pub holds-normalize :
    (allowed : List String) (vs : List ScopedPermissions) (j c : String)
    → holds (normalize allowed vs) j c ≡ (not (j =s= "") && contains c allowed && holds vs j c)
unfolding normalize merged_at contains
holds-normalize allowed vs j c =
    let m = merge [] vs in
    ground (
      arith,
      holds-collect allowed m (sort_strings (scopes m)) j c,
      contains-sort_strings j (scopes m),
      scopes-merged_at c j m,
      merged_at-merge c j [] vs,
    )

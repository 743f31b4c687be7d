-- ===== src/Accounts/Selection.antt =====
-- What `LockRoleTransition` collects of the requested roles.
use golang_cms.Prelude.{
  Bool-cases, inl, inr, String, Bool, true, false, ◌&&◌, ◌||◌, List, [], ◌∷◌, ◌++◌, ◌≡◌, refl, ◌∙◌,
  arith, eq_iff, if◌then◌else◌, any, contains, contains-append, contains-sort_strings, sort_strings,
}
use golang_cms.AppError.{Result, ok, err}
use golang_cms.Permission.Defs.{Tables}
use golang_cms.Accounts.Grants.{
  is_not_found, Role, get_role, LockedRoleSelection, no_roles, append_role, keys_of, select_roles,
  lock_role_transition,
}

pub any_of :
    (p : String → Bool) (a : String) (xs : List String)
    → contains a xs ≡ true
    → p a ≡ true
    → any p xs ≡ true
unfolding any contains
any_of p a [] h k = cc
any_of p a (x ∷ xs) h k = ground (arith, any_of p a xs, eq_iff x a)

pub any-witness :
    (p : String → Bool) (xs : List String)
    → any p xs ≡ true
    → (a : String) × (contains a xs ≡ true) × (p a ≡ true)
unfolding any contains
any-witness p [] h = absurd (cc)
any-witness p (x ∷ xs) h = elim (Bool-cases (p x)) [
  | inl e ↦ (x, ground (arith, eq_iff x x), e)
  | inr e ↦ let (a, found, k) = any-witness p xs (ground arith) in (a, ground arith, k)
]

contains-keys_of : (a : String) (xs : List String) → contains a (keys_of xs) ≡ contains a xs
unfolding keys_of contains
contains-keys_of a [] = refl
contains-keys_of a (x ∷ xs) = ground (arith, contains-keys_of a xs, eq_iff x a)

-- A test of a selection that a role adds to.
module _ (p : LockedRoleSelection → Bool) (q : Role → Bool)
    (step : (s : LockedRoleSelection) (role : Role)
      → p (append_role s role) ≡ (p s || q role)) where
  abbrev adds : Result Role → Bool
  adds (ok role) = q role
  adds (err e) = false

  select_roles-requested :
      (t : Tables) (current requested ids : List String) (c r c' r' : LockedRoleSelection)
      → select_roles t current requested ids c r ≡ ok (c', r')
      → p r' ≡ (p r || any (λ id. contains id requested && adds (get_role t id)) ids)
  unfolding select_roles any
  select_roles-requested t current requested [] c r c' r' h = ground arith
  select_roles-requested t current requested (id ∷ ids) c r c' r' h =
      go (select_roles-requested t current requested ids) (get_role t id) refl h
    where
      go :
          ((c r c' r' : LockedRoleSelection)
            → select_roles t current requested ids c r ≡ ok (c', r')
            → p r' ≡ (p r || any (λ id. contains id requested && adds (get_role t id)) ids))
          → (g : Result Role) → get_role t id ≡ g
          → elim g [
            | err e ↦
                let rest = select_roles t current requested ids c r in
                if is_not_found e then rest else err e
            | ok role ↦
                select_roles t current requested ids
                  (if contains id current then append_role c role else c)
                  (if contains id requested then append_role r role else r)
          ]
            ≡ ok (c', r')
          → p r' ≡ (
              p r
              || ((contains id requested && adds g)
                  || any (λ id. contains id requested && adds (get_role t id)) ids))
      go others (err e) k h = ground (arith, others c r c' r')
      go others (ok role) k h = ground (
        arith,
        others (if contains id current then append_role c role else c)
            (if contains id requested then append_role r role else r) c' r' h,
        step r role,
      )

  -- The test holds of the requested selection for a known requested role of which it holds.
  pub lock_role_transition-requested :
      (t : Tables) (current requested : List String) (c r : LockedRoleSelection) (id : String)
      (role : Role)
      → lock_role_transition t current requested ≡ ok (c, r)
      → contains id requested ≡ true
      → get_role t id ≡ ok role
      → q role ≡ true
      → p r ≡ true
  unfolding lock_role_transition
  lock_role_transition-requested t current requested c r id role h k g w =
      let ids : List String = sort_strings (keys_of (current ++ requested)) in
      let there : contains id ids ≡ true = ground (
        arith,
        contains-sort_strings id (keys_of (current ++ requested)),
        contains-keys_of id (current ++ requested),
        contains-append id current requested,
      ) in
      let found : any (λ id. contains id requested && adds (get_role t id)) ids ≡ true =
        any_of (λ id. contains id requested && adds (get_role t id)) id ids there
          (rw g (ground arith)) in
      select_roles-requested t current requested ids no_roles no_roles c r h ∙ (ground arith)

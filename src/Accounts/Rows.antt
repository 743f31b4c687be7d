-- ===== src/Accounts/Rows.antt =====
-- What reading and replacing the grants of a role come to, row by row.
use golang_cms.Prelude.{
  String, Bool, false, not, ◌&&◌, ◌||◌, List, [], ◌∷◌, ◌++◌, ◌≡◌, refl, ◌∙◌, arith, eq_iff, ◌=s=◌,
  if◌then◌else◌, any, any-append, keep, contains, contains-append,
}
use golang_cms.AppError.{ok, ok-bind}
use golang_cms.Identity.Types.{ScopedPermissions}
use golang_cms.Identity.Normalize.{holds}
use golang_cms.Permission.Defs.{ScopeRow, column}
use golang_cms.Permission.Grants.{grants_scope}
use golang_cms.Accounts.Grants.{
  insert_row, sort_rows, add_code, group_rows, load_scopes, without_first, without_second,
  without_role, insert_pairs, insert_codes, insert_scopes,
}

module _ (p : ScopeRow → Bool) where
  any-insert_row : (a : ScopeRow) (xs : List ScopeRow) → any p (insert_row a xs) ≡ (p a || any p xs)
  unfolding any insert_row
  any-insert_row a [] = refl
  any-insert_row a (x ∷ xs) = ground (arith, any-insert_row a xs)

  pub any-sort_rows : (xs : List ScopeRow) → any p (sort_rows xs) ≡ any p xs
  unfolding any sort_rows
  any-sort_rows [] = refl
  any-sort_rows (x ∷ xs) = ground (arith, any-insert_row x (sort_rows xs), any-sort_rows xs)

  pub any-keep :
      (q : ScopeRow → Bool) (xs : List ScopeRow) → any p (keep q xs) ≡ any (λ r. q r && p r) xs
  unfolding any keep
  any-keep q [] = refl
  any-keep q (x ∷ xs) = ground (arith, any-keep q xs)

holds-add_code :
    (scope code m c : String) (gs : List ScopedPermissions)
    → holds (add_code scope code gs) m c ≡ (holds gs m c || (scope =s= m && code =s= c))
unfolding add_code holds any contains
holds-add_code scope code m c [] = ground (arith, eq_iff scope m, eq_iff code c)
holds-add_code scope code m c (g ∷ []) = ground (
  arith,
  eq_iff scope m,
  eq_iff g.scope_id m,
  eq_iff g.scope_id scope,
  eq_iff code c,
  contains-append c g.permissions (code ∷ []),
)
holds-add_code scope code m c (g ∷ h ∷ gs) = ground (arith, holds-add_code scope code m c (h ∷ gs))

holds-group_rows :
    (m c : String) (found : List ScopedPermissions) (rows : List ScopeRow)
    → holds (group_rows found rows) m c
      ≡ (holds found m c || any (λ r. r.scope =s= m && r.permission =s= c) rows)
unfolding group_rows any
holds-group_rows m c found [] = ground arith
holds-group_rows m c found (r ∷ rows) = ground (
  arith,
  holds-group_rows m c (add_code r.scope r.permission found) rows,
  holds-add_code r.scope r.permission m c found,
)

-- What `loadGrants` reads of a role is what the rows give it.
pub holds-load_scopes :
    (id m c : String) (rows : List ScopeRow)
    → holds (load_scopes id rows) m c ≡ grants_scope rows id m c
unfolding load_scopes grants_scope
holds-load_scopes id m c rows =
    let p : ScopeRow → Bool = λ r. r.scope =s= m && r.permission =s= c in
    let mine : List ScopeRow = keep (λ r. r.role_id =s= id) rows in
    let none_yet : holds [] m c ≡ false = (unfold holds any in refl) in
    holds-group_rows m c [] (sort_rows mine)
    ∙ (rw none_yet (any-sort_rows p mine ∙ any-keep p (λ r. r.role_id =s= id) rows))

grants_scope-append :
    (xs ys : List ScopeRow) (id m c : String)
    → grants_scope (xs ++ ys) id m c ≡ (grants_scope xs id m c || grants_scope ys id m c)
unfolding grants_scope
grants_scope-append xs ys id m c =
    any-append (λ r. r.role_id =s= id && (r.scope =s= m && r.permission =s= c)) xs ys

pub grants_scope-without_role :
    (id r m c : String) (rows : List ScopeRow)
    → grants_scope (without_role id rows) r m c
      ≡ (if r =s= id then false else grants_scope rows r m c)
unfolding grants_scope without_role any keep
grants_scope-without_role id r m c [] = ground arith
grants_scope-without_role id r m c (x ∷ rows) = ground (
  arith,
  grants_scope-without_role id r m c rows,
  eq_iff x.role_id id,
  eq_iff x.role_id r,
  eq_iff r id,
)

grants_scope_one :
    (x : ScopeRow) (r m c : String)
    → grants_scope (x ∷ []) r m c ≡ (x.role_id =s= r && (x.scope =s= m && x.permission =s= c))
unfolding grants_scope any
grants_scope_one x r m c = ground arith

insert_codes-rows :
    (known : Bool) (id scope : String) (codes : List String) (rows rows' : List ScopeRow)
    → insert_codes known id scope codes rows ≡ ok rows'
    → (r m c : String)
    → grants_scope rows' r m c
      ≡ (grants_scope rows r m c || (id =s= r && (scope =s= m && contains c codes)))
unfolding insert_codes contains
insert_codes-rows known id scope [] rows rows' h r m c = ground arith
insert_codes-rows known id scope (x ∷ xs) rows rows' h r m c =
    let row : ScopeRow = record { role_id = id; scope = scope; permission = x } in
    let rest : insert_codes known id scope xs (rows ++ row ∷ []) ≡ ok rows' = ground arith in
    ground (
      arith,
      insert_codes-rows known id scope xs (rows ++ row ∷ []) rows' rest r m c,
      grants_scope-append rows (row ∷ []) r m c,
      grants_scope_one row r m c,
    )

insert_scopes-rows :
    (known : Bool) (id : String) (values : List ScopedPermissions) (rows rows' : List ScopeRow)
    → insert_scopes known id values rows ≡ ok rows'
    → (r m c : String)
    → grants_scope rows' r m c ≡ (grants_scope rows r m c || (id =s= r && holds values m c))
unfolding insert_scopes holds any
insert_scopes-rows known id [] rows rows' h r m c = ground arith
insert_scopes-rows known id (g ∷ gs) rows rows' h r m c =
    ok-bind (insert_codes known id g.scope_id g.permissions rows) _ h λ rows2 e k. ground (
      arith,
      insert_codes-rows known id g.scope_id g.permissions rows rows2 e r m c,
      insert_scopes-rows known id gs rows2 rows' k r m c,
    )

-- After the old rows of a role are deleted and the new ones inserted, the role grants what the values
-- say, and the other roles what they did.
pub insert_scopes-replaced :
    (known : Bool) (id : String) (values : List ScopedPermissions) (rows rows' : List ScopeRow)
    → insert_scopes known id values (without_role id rows) ≡ ok rows'
    → (r m c : String)
    → grants_scope rows' r m c ≡ (if r =s= id then holds values m c else grants_scope rows r m c)
insert_scopes-replaced known id values rows rows' h r m c = ground (
  arith,
  insert_scopes-rows known id values (without_role id rows) rows' h r m c,
  grants_scope-without_role id r m c rows,
  eq_iff r id,
  eq_iff id r,
)

column-append :
    (k v : String) (xs ys : List (String × String))
    → contains v (column k (xs ++ ys)) ≡ (contains v (column k xs) || contains v (column k ys))
unfolding column contains
column-append k v [] ys = refl
column-append k v ((a, b) ∷ xs) ys = ground (arith, column-append k v xs ys)

pub column-without_first :
    (id k v : String) (rows : List (String × String))
    → contains v (column k (without_first id rows))
      ≡ (if k =s= id then false else contains v (column k rows))
unfolding column contains without_first
column-without_first id k v [] = ground arith
column-without_first id k v ((a, b) ∷ rows) =
    ground (arith, column-without_first id k v rows, eq_iff a id, eq_iff a k, eq_iff k id)

pub column-without_second :
    (id k v : String) (rows : List (String × String))
    → contains v (column k (without_second id rows))
      ≡ (not (v =s= id) && contains v (column k rows))
unfolding column contains without_second
column-without_second id k v [] = ground arith
column-without_second id k v ((a, b) ∷ rows) =
    ground (arith, column-without_second id k v rows, eq_iff b id, eq_iff b v, eq_iff v id)

column_one : (k x j : String) → column j ((k, x) ∷ []) ≡ (if k =s= j then x ∷ [] else [])
unfolding column
column_one k x j = refl

pub insert_pairs-rows :
    (allowed : String → String → Bool) (k : String) (vs : List String)
    (rows rows' : List (String × String))
    → insert_pairs allowed k vs rows ≡ ok rows'
    → (j v : String)
    → contains v (column j rows') ≡ (contains v (column j rows) || (k =s= j && contains v vs))
unfolding insert_pairs contains
insert_pairs-rows allowed k [] rows rows' h j v = ground arith
insert_pairs-rows allowed k (x ∷ xs) rows rows' h j v =
    let rest : insert_pairs allowed k xs (rows ++ (k, x) ∷ []) ≡ ok rows' = ground arith in
    ground (
      arith,
      insert_pairs-rows allowed k xs (rows ++ (k, x) ∷ []) rows' rest j v,
      column-append j v rows ((k, x) ∷ []),
      column_one k x j,
    )

-- The same for pairs.
pub insert_pairs-replaced :
    (allowed : String → String → Bool) (k : String) (vs : List String)
    (rows rows' : List (String × String))
    → insert_pairs allowed k vs (without_first k rows) ≡ ok rows'
    → (j v : String)
    → contains v (column j rows') ≡ (if j =s= k then contains v vs else contains v (column j rows))
insert_pairs-replaced allowed k vs rows rows' h j v = ground (
  arith,
  insert_pairs-rows allowed k vs (without_first k rows) rows' h j v,
  column-without_first k j v rows,
  eq_iff j k,
  eq_iff k j,
)

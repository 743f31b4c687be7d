-- ===== src/Content/Unique.antt =====
-- The table of unique values: what `ReplaceUniqueValues` and `rebuildUniqueValues` leave in it.
use golang_cms.Prelude.{
  String, Bool, true, false, ◌&&◌, ◌||◌, none, some, List, [], ◌∷◌, ◌++◌, ◌=s=◌, if◌then◌else◌, any,
  ◌≡◌, refl, ◌∙◌, sym, ap, arith, subst, fun_ext, not, Option, eq_iff, ◌⊎◌, inl, inr, Bool-cases,
}
use golang_cms.AppError.{ok}
use golang_cms.Content.Types.{UniqueValue, Db}
use golang_cms.Content.Env.{Env}
use golang_cms.Content.Repository.{
  UniqueTable, delete_unique_values, put_unique, insert_unique_values, replace_unique_values,
}
use golang_cms.Content.Workflow.{is_value, add_values, rebuild_unique_values}
use golang_cms.Content.Workflow.Effect.{Rebuilt, rebuild_unique_values-Rebuilt}

-- Who holds a value of a model once the entry `e` holds exactly the named ones.
abbrev pub holder_after : String → Bool → Option String → Option String
holder_after e true old = some e
holder_after e false none = none
holder_after e false (some o) = if o =s= e then none else some o

-- A value is held by another entry.
abbrev pub is_taken : String → Option String → Bool
is_taken e none = false
is_taken e (some o) = not (o =s= e)

-- An entry of a model holds exactly the named values, which no other entry held; those of other entries
-- and of other models are as they were.
pub record Replaced (m e : String) (named : String → String → Bool) (t t' : UniqueTable)
    : Type 0 where
  pub row :
      (m' f v : String)
      → t' m' f v ≡ (if m' =s= m then holder_after e (named f v) (t m' f v) else t m' f v)
  pub free : (f v : String) → (named f v && is_taken e (t m f v)) ≡ false

-- A list holds the value of a field.
abbrev pub names : String → String → List UniqueValue → Bool
names f v values = any (λ u. f =s= u.field_id && v =s= u.canonical_value) values

insert-cons :
    (m e : String) (u : UniqueValue) (us : List UniqueValue) (t t' : UniqueTable)
    → insert_unique_values m e (u ∷ us) t ≡ ok t'
    → insert_unique_values m e us (put_unique m e u t) ≡ ok t'
unfolding insert_unique_values
insert-cons m e u us t t' h = ground arith

insert-row :
    (m e : String) (values : List UniqueValue) (t t' : UniqueTable) (m' f v : String)
    → insert_unique_values m e values t ≡ ok t'
    → t' m' f v ≡ (if m' =s= m && names f v values then some e else t m' f v)
unfolding insert_unique_values any
insert-row m e [] t t' m' f v h =
    let same : t' ≡ t = cc in
    let k : t' m' f v ≡ t m' f v = ap (λ (x : UniqueTable). x m' f v) same in ground (arith, k)
insert-row m e (u ∷ us) t t' m' f v h =
    let k = insert-row m e us (put_unique m e u t) t' m' f v (insert-cons m e u us t t' h) in
    ground (arith, k)

insert-free :
    (m e : String) (values : List UniqueValue) (t t' : UniqueTable) (f v : String)
    → insert_unique_values m e values t ≡ ok t'
    → names f v values ≡ true
    → t m f v ≡ none
unfolding insert_unique_values any
insert-free m e [] t t' f v h n = absurd (cc)
insert-free m e (u ∷ us) t t' f v h n =
    let k = insert-free m e us (put_unique m e u t) t' f v (insert-cons m e u us t t' h) in
    ground (arith, k, eq_iff f u.field_id, eq_iff v u.canonical_value, eq_iff m m)

released_row :
    (m e : String) (t : UniqueTable) (m' f v : String)
    → delete_unique_values m e t m' f v
      ≡ (if m' =s= m then holder_after e false (t m' f v) else t m' f v)
unfolding delete_unique_values
released_row m e t m' f v = ground arith

-- The first statement of `ReplaceUniqueValues` leaves the entry no value.
pub delete_unique_values-Replaced :
    (m e : String) (t : UniqueTable) → Replaced m e (λ f v. false) t (delete_unique_values m e t)
delete_unique_values-Replaced m e t = record { row = released_row m e t; free = λ f v. refl }

released_free :
    (m e : String) (t : UniqueTable) (f v : String)
    → delete_unique_values m e t m f v ≡ none
    → is_taken e (t m f v) ≡ false
unfolding delete_unique_values
released_free m e t f v h = ground (arith, eq_iff m m)

-- `ReplaceUniqueValues` that returns leaves exactly the given values to the entry in its model, which no
-- other entry held, and those of other entries and of other models as they were.
pub replace_unique_values-Replaced :
    (m e : String) (values : List UniqueValue) (t t' : UniqueTable)
    → replace_unique_values m e values t ≡ ok t'
    → Replaced m e (λ f v. names f v values) t t'
unfolding replace_unique_values
replace_unique_values-Replaced m e values t t' h = record {
  row = λ m' f v.
      let inserted = insert-row m e values (delete_unique_values m e t) t' m' f v h in
      ground (arith, inserted, released_row m e t m' f v);
  free = λ f v. elim (Bool-cases (names f v values)) [
    | inl n ↦
        let k = insert-free m e values (delete_unique_values m e t) t' f v h n in
        ground (arith, n, released_free m e t f v k)
    | inr n ↦ ground (arith, n)
  ];
}

names-append :
    (f v : String) (a b : List UniqueValue) → names f v (a ++ b) ≡ (names f v a || names f v b)
unfolding any
names-append f v [] b = refl
names-append f v (u ∷ us) b = ground (arith, names-append f v us b)

-- A value that is taken names what it equals.
taken-names :
    (u : UniqueValue) (f v : String) (values : List UniqueValue)
    → any (is_value u) values ≡ true
    → (f =s= u.field_id) ≡ true
    → (v =s= u.canonical_value) ≡ true
    → names f v values ≡ true
unfolding any
taken-names u f v [] h p q = absurd (cc)
taken-names u f v (w ∷ ws) h p q = ground (
  arith,
  taken-names u f v ws,
  eq_iff f u.field_id,
  eq_iff v u.canonical_value,
  eq_iff u.field_id w.field_id,
  eq_iff u.canonical_value w.canonical_value,
  eq_iff f w.field_id,
  eq_iff v w.canonical_value,
)

pub names-add_values :
    (f v : String) (taken values : List UniqueValue)
    → names f v (add_values taken values) ≡ (names f v taken || names f v values)
unfolding add_values any
names-add_values f v taken [] = ground arith
names-add_values f v taken (u ∷ us) = ground (
  arith,
  names-add_values f v taken us,
  names-add_values f v (taken ++ u ∷ []) us,
  names-append f v taken (u ∷ []),
  taken-names u f v taken,
)

-- The values of both lists are collected.
all_names :
    (f v : String) (drafted published : List UniqueValue)
    → names f v (add_values (add_values [] drafted) published)
      ≡ (names f v drafted || names f v published)
unfolding any
all_names f v drafted published =
    names-add_values f v (add_values [] drafted) published
    ∙ ap (λ b. b || names f v published) (names-add_values f v [] drafted)

-- No value stands twice.
abbrev pub Apart : List UniqueValue → Type 0
Apart [] = Unit
Apart (u ∷ us) = (names u.field_id u.canonical_value us ≡ false) × Apart us

Apart-append :
    (values : List UniqueValue) (u : UniqueValue)
    → Apart values
    → names u.field_id u.canonical_value values ≡ false
    → Apart (values ++ u ∷ [])
unfolding any
Apart-append [] u a h = (refl, tt)
Apart-append (w ∷ ws) u (p, a) h = (
  ground (
    arith,
    names-append w.field_id w.canonical_value ws (u ∷ []),
    eq_iff w.field_id u.field_id,
    eq_iff w.canonical_value u.canonical_value,
    eq_iff u.field_id w.field_id,
    eq_iff u.canonical_value w.canonical_value,
  ),
  Apart-append ws u a (ground arith),
)

names-taken :
    (u : UniqueValue) (values : List UniqueValue)
    → any (is_value u) values ≡ false
    → names u.field_id u.canonical_value values ≡ false
unfolding any
names-taken u [] h = refl
names-taken u (w ∷ ws) h = ground (arith, names-taken u ws)

pub add_values-Apart :
    (taken values : List UniqueValue) → Apart taken → Apart (add_values taken values)
unfolding add_values
add_values-Apart taken [] a = a
add_values-Apart taken (u ∷ us) a = elim (Bool-cases (any (is_value u) taken)) [
  | inl old ↦ rw old (add_values-Apart taken us a)
  | inr new ↦
      rw new
        (add_values-Apart (taken ++ u ∷ []) us (Apart-append taken u a (names-taken u taken new)))
]

insert-step :
    (m e : String) (u : UniqueValue) (us : List UniqueValue) (t t' : UniqueTable)
    → t m u.field_id u.canonical_value ≡ none
    → insert_unique_values m e us (put_unique m e u t) ≡ ok t'
    → insert_unique_values m e (u ∷ us) t ≡ ok t'
unfolding insert_unique_values
insert-step m e u us t t' h k = ground arith

insert-total :
    (m e : String) (values : List UniqueValue) (t : UniqueTable)
    → Apart values
    → ((f v : String) → names f v values ≡ true → t m f v ≡ none)
    → (t' : UniqueTable) × (insert_unique_values m e values t ≡ ok t')
unfolding insert_unique_values any
insert-total m e [] t a free = (t, refl)
insert-total m e (u ∷ us) t (p, a) free =
    let self : t m u.field_id u.canonical_value ≡ none =
      free u.field_id u.canonical_value (
        ground (arith, eq_iff u.field_id u.field_id, eq_iff u.canonical_value u.canonical_value)) in
    let (t', h) =
      insert-total m e us (put_unique m e u t) a
        (λ f v h. ground (arith, free f v, eq_iff f u.field_id, eq_iff v u.canonical_value)) in
    (t', insert-step m e u us t t' self h)

delete_unique_values-free :
    (m e : String) (t : UniqueTable) (f v : String)
    → (t m f v ≡ none) ⊎ (t m f v ≡ some e)
    → delete_unique_values m e t m f v ≡ none
unfolding delete_unique_values
delete_unique_values-free m e t f v (inl h) = ground (arith, h, eq_iff m m)
delete_unique_values-free m e t f v (inr h) = ground (arith, h, eq_iff e e, eq_iff m m)

-- `ReplaceUniqueValues` on the values that `rebuildUniqueValues` collects succeeds where no other entry
-- of the model holds one of them.
pub replace_unique_values-total :
    (m e : String) (drafted published : List UniqueValue) (t : UniqueTable)
    → ((f v : String)
        → (names f v drafted || names f v published) ≡ true
        → (t m f v ≡ none) ⊎ (t m f v ≡ some e))
    → (t' : UniqueTable) × (replace_unique_values m e
          (add_values (add_values [] drafted) published)
          t
        ≡ ok t')
unfolding replace_unique_values
replace_unique_values-total m e drafted published t free =
    insert-total m e (add_values (add_values [] drafted) published) (delete_unique_values m e t)
      (add_values-Apart (add_values [] drafted) published (add_values-Apart [] drafted tt))
      (λ f v h.
        delete_unique_values-free m e t f v (free f v (sym (all_names f v drafted published) ∙ h)))

-- `rebuildUniqueValues` that returns leaves to the entry exactly the values of its draft and of its
-- published revision, which no other entry of the model held, those of other entries and models as they
-- were, and writes no other table.
pub rebuild_unique_values-row :
    (env : Env) (m e : String) (db db' : Db)
    → rebuild_unique_values env m e db ≡ ok (tt, db')
    → (r : Rebuilt env m e db db') × Replaced m e
        (λ f v. names f v r.drafted || names f v r.published)
        db.unique_values
        db'.unique_values
rebuild_unique_values-row env m e db db' h =
    let r = rebuild_unique_values-Rebuilt env m e db db' h in
    (
      r,
      subst (λ named. Replaced m e named db.unique_values db'.unique_values)
          (fun_ext λ f. fun_ext λ v. all_names f v r.drafted r.published)
          (replace_unique_values-Replaced m e (add_values (add_values [] r.drafted) r.published)
            db.unique_values db'.unique_values r.table),
    )

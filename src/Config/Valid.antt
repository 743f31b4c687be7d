-- ===== src/Config/Valid.antt =====
-- What holds of the namespaces and the items of the configuration, and the rows that keep it.
use golang_cms.Prelude.{
  String, ℕ, true, false, [], ◌∷◌, Option, none, some, ◌≡◌, refl, if◌then◌else◌, ◌+◌, ◌≤◌, ◌<◌,
  arith, eq_iff, any, keep, Table, Assoc, lookup, assign, put, lookup-assign,
}
use golang_cms.Config.Types.{Namespace, Item}
use golang_cms.Config.Repository.{is_active_status, active_in, count_active, has_active}

abbrev counted : String → Option Item → ℕ
counted ns none = 0
counted ns (some item) = if active_in ns item then 1 else 0

count_active-assign :
    (ns id : String) (item : Item) (m : Assoc Item)
    → count_active ns (assign id item m) + counted ns (lookup id m)
      ≡ count_active ns m + counted ns (some item)
unfolding count_active assign lookup keep
count_active-assign ns id item [] = ground (arith)
count_active-assign ns id item ((j, old) ∷ m) = ground (arith, count_active-assign ns id item m)

pub has_active-false :
    (ns : String) (m : Assoc Item) → has_active ns m ≡ false → count_active ns m ≡ 0
unfolding count_active has_active any keep
has_active-false ns [] h = refl
has_active-false ns ((j, old) ∷ m) h = ground (arith, has_active-false ns m)

-- The rows stand at their identifiers, a namespace has at most 100 active items, and an archived one
-- has none.
pub record Valid (namespaces : Table Namespace) (items : Assoc Item) : Type 0 where
  pub namespace_at : (ns : String) (n : Namespace) → namespaces ns ≡ some n → n.id ≡ ns
  pub item_at : (id : String) (item : Item) → lookup id items ≡ some item → item.id ≡ id
  pub bounded : (ns : String) → count_active ns items ≤ 100
  pub closed :
      (ns : String) (n : Namespace)
      → namespaces ns ≡ some n
      → is_active_status n.status ≡ false
      → count_active ns items ≡ 0

module _ (namespaces : Table Namespace) (items : Assoc Item) (v : Valid namespaces items) where
  pub put-Valid :
      (n : Namespace)
      → (is_active_status n.status ≡ false → count_active n.id items ≡ 0)
      → Valid (put n.id n namespaces) items
  unfolding put
  put-Valid n empty = record {
    namespace_at = λ ns n2 h. ground (arith, eq_iff n.id ns, v.namespace_at ns n2);
    item_at = v.item_at;
    bounded = v.bounded;
    closed = λ ns n2 h k. ground (arith, eq_iff n.id ns, empty, v.closed ns n2);
  }

  -- A new item of an active namespace that has room.
  pub add-Valid :
      (item : Item) (n : Namespace)
      → lookup item.id items ≡ none
      → count_active item.namespace_id items < 100
      → namespaces item.namespace_id ≡ some n
      → is_active_status n.status ≡ true
      → Valid namespaces (assign item.id item items)
  add-Valid item n free room there active = record {
    namespace_at = v.namespace_at;
    item_at = λ id other h.
        ground (arith, eq_iff item.id id, lookup-assign item.id id item items, v.item_at id other);
    bounded = λ ns. ground (
      arith,
      eq_iff item.namespace_id ns,
      count_active-assign ns item.id item items,
      v.bounded ns,
    );
    closed = λ ns n2 h k. ground (
      arith,
      eq_iff item.namespace_id ns,
      count_active-assign ns item.id item items,
      v.closed ns n2,
    );
  }

  -- An item written over, which is active only where it was.
  pub write-Valid :
      (item old : Item)
      → lookup item.id items ≡ some old
      → ((ns : String) → active_in ns item ≡ true → active_in ns old ≡ true)
      → Valid namespaces (assign item.id item items)
  write-Valid item old there less = record {
    namespace_at = v.namespace_at;
    item_at = λ id other h.
        ground (arith, eq_iff item.id id, lookup-assign item.id id item items, v.item_at id other);
    bounded =
        λ ns. ground (arith, count_active-assign ns item.id item items, v.bounded ns, less ns);
    closed = λ ns n2 h k.
        ground (arith, count_active-assign ns item.id item items, v.closed ns n2, less ns);
  }

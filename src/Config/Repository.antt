-- ===== src/Config/Repository.antt =====
-- internal/configuration/repository.go: the queries as functions of the tables. A row lock changes no
-- result of one transaction.
use golang_cms.Prelude.{
  String, ℕ, Bool, true, false, not, ◌&&◌, ◌||◌, Option, none, some, if◌then◌else◌, ◌=s=◌, any,
  keep, length, lookup, assign, delete, put, Table, Assoc,
}
use golang_cms.AppError.{conflicting, failure, resource_not_found, Result, ok, err, ◌>>=◌, guard}
use golang_cms.Schema.{ResourceStatus}
use golang_cms.Content.Types.{WorkflowStatus, same_status}
use golang_cms.Permission.Defs.{is_some}
use golang_cms.Config.Types.{
  Namespace, Item, ConfigRevision, ItemValue, DraftRow, PublishedRow, ConfigDb,
}

abbrev pub is_active_status : ResourceStatus → Bool
is_active_status ResourceStatus.active = true
is_active_status ResourceStatus.archived = false

-- `GetNamespace`, `LockNamespace`
unfoldable pub get_namespace : ConfigDb → String → Result Namespace
get_namespace db id = elim (db.namespaces id) [ none ↦ err resource_not_found | some n ↦ ok n ]

-- `CreateNamespace`, with the service's answer to a taken key.
unfoldable pub create_namespace : Namespace → ConfigDb → Result ConfigDb
unfolding put
create_namespace n db = do
  _ ←
      guard (not (is_some (db.namespaces n.id) || is_some (db.namespace_keys n.key)))
        (conflicting "key_conflict")
  ok (record db {
    namespaces = put n.id n db.namespaces;
    namespace_keys = put n.key n.id db.namespace_keys;
  })

-- `UpdateNamespace`; the service has locked the row.
unfoldable pub update_namespace : Namespace → ConfigDb → ConfigDb
unfolding put
update_namespace n db = record db { namespaces = put n.id n db.namespaces }

-- An active item of the namespace.
abbrev pub active_in : String → Item → Bool
active_in ns item = item.namespace_id =s= ns && is_active_status item.status

-- `CountActiveItems`
unfoldable pub count_active : String → Assoc Item → ℕ
unfolding keep
count_active ns items = length (keep (λ p. active_in ns p.1) items)

-- `HasActiveItems`
unfoldable pub has_active : String → Assoc Item → Bool
unfolding any
has_active ns items = any (λ p. active_in ns p.1) items

-- `HasPublishedItems`
unfoldable pub has_published : String → Assoc PublishedRow → Bool
unfolding any
has_published ns pointers = any (λ p. p.1.namespace_id =s= ns) pointers

-- `GetItem`, `LockItem`
unfoldable pub get_item : ConfigDb → String → String → Result Item
unfolding lookup
get_item db ns id = elim (lookup id db.items) [
  | none ↦ err resource_not_found
  | some item ↦ if item.namespace_id =s= ns then ok item else err resource_not_found
]

-- `CreateItem`, with the service's answer to a taken key.
unfoldable pub create_item : Item → ConfigDb → Result ConfigDb
unfolding lookup assign
create_item item db = do
  _ ←
      guard
        (not
          (is_some (lookup item.id db.items) || is_some (db.item_keys item.namespace_id item.key)))
        (conflicting "key_conflict")
  ok (record db {
    items = assign item.id item db.items;
    item_keys = λ ns key.
        if ns =s= item.namespace_id && key =s= item.key then some item.id else db.item_keys ns key;
  })

-- `UpdateItem`; the service has locked the row.
unfoldable pub update_item : Item → ConfigDb → ConfigDb
unfolding assign
update_item item db = record db { items = assign item.id item db.items }

-- `getRevision`, `LockRevision`
unfoldable pub get_config_revision : ConfigDb → String → String → String → Result ConfigRevision
get_config_revision db ns item id = elim (db.revisions id) [
  | none ↦ err resource_not_found
  | some r ↦ if r.item_id =s= item && r.namespace_id =s= ns then ok r else err resource_not_found
]

-- The revision of a published pointer, if there is one.
unfoldable pub published_revision :
    ConfigDb → String → String → Option PublishedRow → Result (Option ConfigRevision)
unfolding get_config_revision
published_revision db ns item none = ok none
published_revision db ns item (some p) = do
  r ← get_config_revision db ns item p.revision_id
  ok (some r)

abbrev pub id_of : Option PublishedRow → Option String
id_of none = none
id_of (some p) = some p.revision_id

abbrev pub without_draft : Item → ItemValue
without_draft item = record { item = item; draft = none; published_id = none; published = none }

-- The value of an item with a draft.
unfoldable pub drafted_value : ConfigDb → Item → DraftRow → Result ItemValue
unfolding get_config_revision published_revision lookup
drafted_value db item d = do
  draft ← get_config_revision db item.namespace_id item.id d.revision_id
  let pointer = lookup item.id db.published_pointers
  published ← published_revision db item.namespace_id item.id pointer
  ok (record {
    item = item;
    draft = some draft;
    published_id = id_of pointer;
    published = published;
  })

-- `GetItemValue`
unfoldable pub get_item_value : ConfigDb → String → String → Result ItemValue
unfolding get_item drafted_value
get_item_value db ns id = do
  item ← get_item db ns id
  elim (db.draft_pointers id) [
    | none ↦ ok (without_draft item)
    | some d ↦
        let value = drafted_value db item d in
        if d.namespace_id =s= ns then value else ok (without_draft item)
  ]

-- `CreateRevision`; the unique key on numbers is not executed.
unfoldable pub create_config_revision : ConfigRevision → ConfigDb → Result ConfigDb
unfolding put
create_config_revision r db =
    if is_some (db.revisions r.id)
    then err failure
    else ok (record db { revisions = put r.id r db.revisions })

-- The row of an insert that updates the revision of a row that is there.
abbrev pub drafted_row : String → String → Option DraftRow → DraftRow
drafted_row ns id none = record { namespace_id = ns; revision_id = id }
drafted_row ns id (some d) = record d { revision_id = id }

-- `SetDraftPointer`
unfoldable pub set_config_draft : String → String → String → ConfigDb → ConfigDb
unfolding put
set_config_draft ns item id db = record db {
  draft_pointers = put item (drafted_row ns id (db.draft_pointers item)) db.draft_pointers;
}

abbrev pub or_first {ℓ} : {A : Type ℓ} → Option A → Option A → Option A
or_first none b = b
or_first (some a) b = some a

abbrev pub config_transitioned :
    WorkflowStatus → Option String → Option ℕ → ConfigRevision → ConfigRevision
config_transitioned to submitter at r = record r {
  workflow_status = to;
  submitted_by = or_first r.submitted_by submitter;
  submitted_at = or_first r.submitted_at at;
}

-- `TransitionRevision`: whether a row was changed, and the rows.
unfoldable pub transition :
    String
    → WorkflowStatus
    → WorkflowStatus
    → Option String
    → Option ℕ
    → Table ConfigRevision
    → Bool × Table ConfigRevision
unfolding put
transition id from to submitter at t = elim (t id) [
  | none ↦ (false, t)
  | some r ↦
      if same_status r.workflow_status from
      then (true, put id (config_transitioned to submitter at r) t)
      else (false, t)
]

-- The row of an insert that updates the revision and the time of a row that is there.
abbrev pub published_row : String → String → ℕ → Option PublishedRow → PublishedRow
published_row ns id now none = record { namespace_id = ns; revision_id = id; published_at = now }
published_row ns id now (some p) = record p { revision_id = id; published_at = now }

-- `SetPublishedPointer`
unfoldable pub set_published : String → String → String → ℕ → ConfigDb → ConfigDb
unfolding lookup assign
set_published ns item id now db = record db {
  published_pointers =
      assign item (published_row ns id now (lookup item db.published_pointers))
        db.published_pointers;
}

abbrev pub is_pointer : String → String → Option PublishedRow → Bool
is_pointer ns id none = false
is_pointer ns id (some p) = p.namespace_id =s= ns && p.revision_id =s= id

-- `DeletePublishedPointer`: whether a row was deleted.
unfoldable pub delete_published : String → String → String → ConfigDb → Bool × ConfigDb
unfolding lookup delete
delete_published ns item id db =
    if is_pointer ns id (lookup item db.published_pointers)
    then (true, record db { published_pointers = delete item db.published_pointers })
    else (false, db)

-- ===== src/Config/Service.antt =====
-- internal/configuration/service.go: namespaces, items and drafts.
use golang_cms.Prelude.{
  String, ℕ, not, ◌&&◌, List, [], ◌∷◌, ◌++◌, Option, none, some, if◌then◌else◌, ◌=s=◌, ◌+◌, ltb,
}
use golang_cms.AppError.{Error, conflicting, Result, ok, err, ◌>>=◌, guard}
use golang_cms.Audit.{append_to}
use golang_cms.Database.{Tx}
use golang_cms.Identity.Types.{Principal}
use golang_cms.Identity.Normalize.{holds}
use golang_cms.Schema.{ResourceStatus}
use golang_cms.Content.Types.{WorkflowStatus, same_status}
use golang_cms.Permission.Defs.{denied, is_some, current_principal, require_system_permission}
use golang_cms.Config.Types.{
  Constraints, Namespace, Item, ConfigRevision, ItemValue, Reference, ConfigDb, ConfigEnv, NewItem,
}
use golang_cms.Config.Repository.{
  is_active_status, get_namespace, create_namespace, update_namespace, count_active, has_active,
  has_published, get_item, create_item, update_item, get_item_value, create_config_revision,
  set_config_draft,
}

-- `appendAudit`
unfoldable pub audit : ConfigEnv → Principal → String → String → String → ConfigDb → Result ConfigDb
unfolding append_to
audit env who action resource_type resource_id db = do
  id ← env.new_id "evt_"
  log ←
      append_to env.audit_check
        (record {
          id = id;
          action = action;
          resource_type = resource_type;
          resource_id = resource_id;
          actor_id = who.user_id;
          actor_display_name = who.display_name;
        })
        db.audit_events
  ok (record db { audit_events = log })

-- `currentPrincipal`
unfoldable pub current : ConfigEnv → Result Principal
unfolding current_principal
current env = current_principal env.tables env.providers env.principal

-- The caller, who has the system permission.
unfoldable pub administrator : ConfigEnv → String → Result Principal
unfolding current
administrator env required = do
  who ← current env
  _ ← require_system_permission who required
  ok who

-- `requireNamespacePermission`
unfoldable pub require_namespace_permission : Principal → String → String → Result (Unit {0})
unfolding holds
require_namespace_permission who ns required =
    guard (holds who.config_namespace_permissions ns required) denied

abbrev pub resource_archived : Error
resource_archived = conflicting "resource_archived"

-- The transaction of `CreateNamespace`.
unfoldable pub create_namespace_tx : ConfigEnv → Namespace → Tx ConfigDb Namespace
unfolding administrator create_namespace audit
create_namespace_tx env n db = do
  who ← administrator env "configurations.create"
  db2 ← create_namespace n db
  db3 ← audit env who "configuration_namespace_created" "configuration_namespace" n.id db2
  ok (n, db3)

abbrev pub or_keep : Option String → String → String
or_keep none old = old
or_keep (some new) old = new

-- The transaction of `UpdateNamespace`; a member of the patch may be missing.
unfoldable pub update_namespace_tx :
    ConfigEnv → String → Option String → Option String → Tx ConfigDb Namespace
unfolding administrator get_namespace update_namespace audit
update_namespace_tx env id name description db = do
  who ← administrator env "configurations.update"
  n ← get_namespace db id
  _ ← guard (is_active_status n.status) resource_archived
  let n2 : Namespace = record n {
    display_name = or_keep name n.display_name;
    description = or_keep description n.description;
    updated_at = env.now;
  }
  db2 ←
      audit env who "configuration_namespace_updated" "configuration_namespace" id
        (update_namespace n2 db)
  ok (n2, db2)

-- The transaction of `ArchiveNamespace`.
unfoldable pub archive_namespace_tx : ConfigEnv → String → Tx ConfigDb (Unit {0})
unfolding administrator get_namespace has_active has_published update_namespace audit
archive_namespace_tx env id db = do
  who ← administrator env "configurations.archive"
  n ← get_namespace db id
  _ ← guard (is_active_status n.status) resource_archived
  _ ← guard (not (has_active id db.items)) (conflicting "namespace_not_empty")
  _ ←
      guard (not (has_published id db.published_pointers))
        (conflicting "published_namespace_archive_forbidden")
  let n2 : Namespace = record n { status = ResourceStatus.archived; updated_at = env.now }
  db2 ←
      audit env who "configuration_namespace_archived" "configuration_namespace" id
        (update_namespace n2 db)
  ok (tt, db2)

-- The transaction of `CreateItem`.
unfoldable pub create_item_tx : ConfigEnv → String → String → NewItem → Tx ConfigDb Item
unfolding administrator get_namespace count_active create_item audit
create_item_tx env ns id input db = do
  who ← administrator env "configurations.create"
  n ← get_namespace db ns
  _ ← guard (is_active_status n.status) resource_archived
  _ ← guard (ltb (count_active ns db.items) 100) (conflicting "configuration_namespace_item_limit")
  let item : Item = record {
    id = id;
    namespace_id = ns;
    key = input.key;
    display_name = input.display_name;
    description = input.description;
    value_type = input.value_type;
    constraints = input.constraints;
    status = ResourceStatus.active;
    created_by = who.user_id;
    created_at = env.now;
    updated_at = env.now;
  }
  db2 ← create_item item db
  db3 ← audit env who "configuration_item_created" "configuration_item" id db2
  ok (item, db3)

-- The transaction of `ArchiveItem`.
unfoldable pub archive_item_tx : ConfigEnv → String → String → Tx ConfigDb (Unit {0})
unfolding administrator get_namespace require_namespace_permission get_item get_item_value
    update_item audit
archive_item_tx env ns id db = do
  who ← administrator env "configurations.archive"
  n ← get_namespace db ns
  _ ← require_namespace_permission who n.id "config.archive"
  item ← get_item db ns id
  _ ← guard (is_active_status item.status) resource_archived
  value ← get_item_value db ns id
  _ ← guard (not (is_some value.published_id)) (conflicting "published_item_archive_forbidden")
  let item2 : Item = record item { status = ResourceStatus.archived; updated_at = env.now }
  db2 ← audit env who "configuration_item_archived" "configuration_item" id (update_item item2 db)
  ok (tt, db2)

-- `makeAssetReferences`, `makeRelations`: the targets in their order.
unfoldable pub references : String → Item → String → ℕ → List String → List Reference
references revision item model position [] = []
references revision item model position (id ∷ ids) =
    record {
      revision_id = revision;
      item_id = item.id;
      namespace_id = item.namespace_id;
      target_id = id;
      target_model_id = model;
      position = position;
    }
    ∷ references revision item model (position + 1) ids

abbrev pub target_model : Constraints → String
target_model c = elim c.target_model_id [ none ↦ "" | some id ↦ id ]

-- What the draft has to be: none for `CreateDraft`, the base for `UpdateDraft`.
unfoldable pub check_base : Option String → Option ConfigRevision → Result (Unit {0})
check_base none none = ok tt
check_base none (some r) = err (conflicting "draft_exists")
check_base (some base) none = err (conflicting "draft_revision_conflict")
check_base (some base) (some r) = do
  _ ← guard (r.id =s= base) (conflicting "draft_revision_conflict")
  guard (not (same_status r.workflow_status WorkflowStatus.pending_review))
      (conflicting "invalid_workflow_transition")

abbrev pub next_number : Option ConfigRevision → ℕ
next_number none = 1
next_number (some r) = r.number + 1

-- The transaction of `saveDraft`: `base` is given by `UpdateDraft`, where it is not empty.
unfoldable pub save_draft_tx :
    ConfigEnv → String → String → Option String → String → String → Tx ConfigDb ItemValue
unfolding current get_namespace require_namespace_permission get_item get_item_value check_base
    references create_config_revision set_config_draft update_item audit
save_draft_tx env ns id base raw revision_id db = do
  who ← current env
  n ← get_namespace db ns
  _ ←
      require_namespace_permission who n.id
        (if is_some base then "config.update" else "config.create")
  item ← get_item db ns id
  _ ← guard (is_active_status n.status && is_active_status item.status) resource_archived
  (value, (assets, targets)) ← env.rules.normalize raw item.value_type item.constraints
  found ← get_item_value db ns id
  _ ← check_base base found.draft
  _ ← env.rules.assets_available assets item.constraints
  let relations = references revision_id item (target_model item.constraints) 0 targets
  _ ← env.rules.relations_active relations
  let revision : ConfigRevision = record {
    id = revision_id;
    item_id = id;
    namespace_id = ns;
    number = next_number found.draft;
    value_type = item.value_type;
    constraints = item.constraints;
    value = value;
    workflow_status = WorkflowStatus.draft;
    created_by = who.user_id;
    submitted_by = none;
    submitted_at = none;
    created_at = env.now;
  }
  db2 ← create_config_revision revision db
  let db3 : ConfigDb = record db2 {
    asset_references = db2.asset_references ++ references revision_id item "" 0 assets;
    relations = db2.relations ++ relations;
  }
  let item2 : Item = record item { updated_at = env.now }
  db4 ←
      audit env who "configuration_revision_created" "configuration_revision" revision_id
        (update_item item2 (set_config_draft ns id revision_id db3))
  ok (record found { item = item2; draft = some revision }, db4)

-- ===== src/Config/Types.antt =====
-- internal/configuration/types.go: the rows, and what a call is given. The statuses are those of a
-- content model and of a content revision, which have the same values.
use golang_cms.Prelude.{String, ℕ, List, Option, Table, Assoc}
use golang_cms.AppError.{Error, Result}
use golang_cms.Audit.{AuditEvent}
use golang_cms.Schema.{ResourceStatus}
use golang_cms.Content.Types.{WorkflowStatus}
use golang_cms.Identity.Types.{Principal}
use golang_cms.Permission.Defs.{Tables, Providers}

pub data ValueType : Type 0 where
  string integer decimal boolean json : ValueType
  single_asset multi_asset single_relation multi_relation : ValueType

-- `Constraints`: the target of a relation, and the other members as one text.
pub record Constraints : Type 0 where
  pub target_model_id : Option String
  pub others : String

pub record Namespace : Type 0 where
  pub id : String
  pub key : String
  pub display_name : String
  pub description : String
  pub status : ResourceStatus
  pub created_at : ℕ
  pub updated_at : ℕ

pub record Item : Type 0 where
  pub id : String
  pub namespace_id : String
  pub key : String
  pub display_name : String
  pub description : String
  pub value_type : ValueType
  pub constraints : Constraints
  pub status : ResourceStatus
  pub created_by : String
  pub created_at : ℕ
  pub updated_at : ℕ

pub record ConfigRevision : Type 0 where
  pub id : String
  pub item_id : String
  pub namespace_id : String
  pub number : ℕ
  pub value_type : ValueType
  pub constraints : Constraints
  pub value : String
  pub workflow_status : WorkflowStatus
  pub created_by : String
  pub submitted_by : Option String
  pub submitted_at : Option ℕ
  pub created_at : ℕ

-- `ItemValue`: a draft revision without an identifier is `none`.
pub record ItemValue : Type 0 where
  pub item : Item
  pub draft : Option ConfigRevision
  pub published_id : Option String
  pub published : Option ConfigRevision

-- A row of `config_draft_pointers`, whose key is the item.
pub record DraftRow : Type 0 where
  pub namespace_id : String
  pub revision_id : String

-- A row of `config_published_pointers`, whose key is the item.
pub record PublishedRow : Type 0 where
  pub namespace_id : String
  pub revision_id : String
  pub published_at : ℕ

pub data ReviewAction : Type 0 where
  submits approves rejects unpublishes : ReviewAction

pub record ConfigEvent : Type 0 where
  pub id : String
  pub item_id : String
  pub namespace_id : String
  pub revision_id : String
  pub action : ReviewAction
  pub actor_id : String
  pub reason : Option String
  pub occurred_at : ℕ

-- A row of `config_asset_references` or of `config_content_relations`.
pub record Reference : Type 0 where
  pub revision_id : String
  pub item_id : String
  pub namespace_id : String
  pub target_id : String
  pub target_model_id : String
  pub position : ℕ

-- The tables; `namespace_keys` and `item_keys` are the unique indices on the keys.
pub record ConfigDb : Type 0 where
  pub namespaces : Table Namespace
  pub namespace_keys : Table String
  pub items : Assoc Item
  pub item_keys : String → String → Option String
  pub revisions : Table ConfigRevision
  pub draft_pointers : Table DraftRow
  pub published_pointers : Assoc PublishedRow
  pub asset_references : List Reference
  pub relations : List Reference
  pub workflow_events : List ConfigEvent
  pub audit_events : List AuditEvent

-- `CreateItemRequest`
pub record NewItem : Type 0 where
  pub key : String
  pub display_name : String
  pub description : String
  pub value_type : ValueType
  pub constraints : Constraints

-- The rules of validation.go and the checks of assets and relations in repository.go, which read the
-- tables of other components. `normalize` returns the value, its assets and its relations.
pub record ConfigRules : Type 0 where
  pub validate_namespace : String → String → String → Result (Unit {0})
  pub validate_patch : Option String → Option String → Result (Unit {0})
  pub validate_item : NewItem → Result NewItem
  pub normalize : String → ValueType → Constraints → Result (String × (List String × List String))
  pub assets_available : List String → Constraints → Result (Unit {0})
  pub relations_active : List Reference → Result (Unit {0})
  pub assets_publishable : String → Constraints → Result (Unit {0})
  pub relations_published : String → Result (Unit {0})

-- One call: the tables and the providers of `CurrentPrincipal`, and what `Env` of the content service
-- has.
pub record ConfigEnv : Type 0 where
  pub tables : Tables
  pub providers : Providers
  pub principal : Principal
  pub now : ℕ
  pub new_id : String → Result String
  pub audit_check : AuditEvent → Option Error
  pub commit : Option Error
  pub rules : ConfigRules

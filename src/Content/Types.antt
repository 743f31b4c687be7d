-- ===== src/Content/Types.antt =====
-- internal/content/types.go, and the tables of db/migrations that the content module reads and
-- writes. A time is a number of microseconds, a JSON text a `String`.
use golang_cms.Audit.{AuditEvent}
use golang_cms.Prelude.{ℕ, String, Bool, true, false, List, Option, Table}
use golang_cms.Schema.{ContentModel}

pub data EntryStatus : Type 0 where
  draft archived : EntryStatus

pub data WorkflowStatus : Type 0 where
  draft pending_review rejected published unpublished : WorkflowStatus

pub data EventType : Type 0 where
  submitted approved rejected unpublished : EventType

pub record Revision : Type 0 where
  pub id : String
  pub entry_id : String
  pub model_id : String
  pub number : ℕ
  pub content : String
  pub workflow_status : WorkflowStatus
  pub created_by : String
  pub submitted_by : Option String
  pub submitted_at : Option ℕ
  pub created_at : ℕ

pub record WorkflowEvent : Type 0 where
  pub id : String
  pub entry_id : String
  pub revision_id : String
  pub event_type : EventType
  pub from_status : WorkflowStatus
  pub to_status : WorkflowStatus
  pub actor_id : String
  pub reason : Option String
  pub occurred_at : ℕ

-- `EntrySummary`. `CurrentDraftContent` and `ReferencedAssets` repeat other rows and are left out.
pub record EntrySummary : Type 0 where
  pub id : String
  pub model_id : String
  pub status : EntryStatus
  pub current_draft_revision_id : String
  pub workflow_status : WorkflowStatus
  pub current_published_revision_id : Option String
  pub created_by : String
  pub created_at : ℕ
  pub updated_at : ℕ

pub record Entry : Type 0 where
  pub summary : EntrySummary
  pub open summary use *
  pub current_draft_revision : Revision
  pub current_published_revision : Option Revision

-- A row of `content_field_values`; the typed columns are one text.
pub record FieldValue : Type 0 where
  pub revision_id : String
  pub field_id : String
  pub value_type : String
  pub value : String

pub record Relation : Type 0 where
  pub revision_id : String
  pub entry_id : String
  pub model_id : String
  pub field_id : String
  pub target_entry_id : String
  pub target_model_id : String
  pub position : ℕ

pub record MediaReference : Type 0 where
  pub revision_id : String
  pub entry_id : String
  pub model_id : String
  pub field_id : String
  pub asset_id : String
  pub json_pointer : String
  pub position : ℕ
  pub kind : String

pub record UniqueValue : Type 0 where
  pub field_id : String
  pub canonical_value : String

-- A row of `content_entries`.
pub record EntryRow : Type 0 where
  pub id : String
  pub model_id : String
  pub status : EntryStatus
  pub created_by : String
  pub created_at : ℕ
  pub updated_at : ℕ

-- A row of `content_draft_pointers`, whose key is the entry.
pub record DraftPointer : Type 0 where
  pub model_id : String
  pub revision_id : String

-- A row of `content_published_pointers`, whose key is the entry.
pub record PublishedPointer : Type 0 where
  pub model_id : String
  pub revision_id : String
  pub published_at : ℕ

pub data AssetStatus : Type 0 where
  quarantined available archived : AssetStatus

pub record AssetRow : Type 0 where
  pub status : AssetStatus
  pub mime_type : String

-- The tables. `unique_values` is keyed by the model, the field and the canonical value.
pub record Db : Type 0 where
  pub models : Table ContentModel
  pub entries : Table EntryRow
  pub revisions : Table Revision
  pub draft_pointers : Table DraftPointer
  pub published_pointers : Table PublishedPointer
  pub unique_values : String → String → String → Option String
  pub field_values : List FieldValue
  pub relations : List Relation
  pub asset_references : List MediaReference
  pub assets : Table AssetRow
  pub workflow_events : List WorkflowEvent
  pub audit_events : List AuditEvent

abbrev pub is_archived : EntryStatus → Bool
is_archived EntryStatus.archived = true
is_archived EntryStatus.draft = false

-- `==` on the statuses of a workflow.
abbrev pub same_status : WorkflowStatus → WorkflowStatus → Bool
same_status WorkflowStatus.draft WorkflowStatus.draft = true
same_status WorkflowStatus.pending_review WorkflowStatus.pending_review = true
same_status WorkflowStatus.rejected WorkflowStatus.rejected = true
same_status WorkflowStatus.published WorkflowStatus.published = true
same_status WorkflowStatus.unpublished WorkflowStatus.unpublished = true
same_status _ _ = false

-- ===== src/Schema.antt =====
-- internal/schema/types.go: content models and their fields.
use golang_cms.Prelude.{ℕ, String, Bool, List, Option}

pub data ResourceStatus : Type 0 where
  active archived : ResourceStatus

pub data FieldType : Type 0 where
  single_line_text multi_line_text rich_text integer decimal boolean date datetime : FieldType
  single_select multi_select json single_media multi_media single_relation : FieldType
  multi_relation object repeatable_group : FieldType

pub record EnumOption : Type 0 where
  pub value : String
  pub label : String

pub record FieldConstraints : Type 0 where
  pub min_length : Option ℕ
  pub max_length : Option ℕ
  pub minimum : Option String
  pub maximum : Option String
  pub enum_options : List EnumOption
  pub target_model_id : Option String
  pub unique : Bool
  pub filterable : Bool
  pub sortable : Bool

-- What a field holds beside its children. A JSON text is a `String`.
pub record FieldHead : Type 0 where
  pub id : String
  pub key : String
  pub field_type : FieldType
  pub required : Bool
  pub default_value : String
  pub constraints : FieldConstraints
  pub status : ResourceStatus

mutual
  pub data ContentField : Type 0 where
    field : FieldHead → ContentFields → ContentField

  pub data ContentFields : Type 0 where
    no_fields : ContentFields
    more : ContentField → ContentFields → ContentFields

pub record ContentModel : Type 0 where
  pub id : String
  pub key : String
  pub status : ResourceStatus
  pub updated_at : ℕ
  pub fields : ContentFields

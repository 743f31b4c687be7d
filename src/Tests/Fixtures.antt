-- ===== src/Tests/Fixtures.antt =====
-- Callers, environments and tables for the runs of the content service.
use golang_cms.Prelude.{ℕ, String, false, none, some, [], ◌∷◌, ◌=s=◌, if◌then◌else◌, refl}
use golang_cms.AppError.{ok}
use golang_cms.Identity.Types.{Principal, local, model_permission_codes}
use golang_cms.Schema.{ContentModel, no_fields, ResourceStatus}
use golang_cms.Content.Types.{Db}
use golang_cms.Content.Env.{Env, Rules}
use golang_cms.Content.Drafting.{create}
use golang_cms.Content.Workflow.Actions.{perform, submits, approves}
use golang_cms.Content.Valid.{IsValid}

-- Each content is its own only unique value.
abbrev pub rules : Rules
rules = record {
  validate_content = λ raw fields. ok raw;
  media_references = λ content key fields. ok [];
  derivatives = λ content key fields. ok ([], []);
  unique_values =
      λ content fields. ok (record { field_id = "slug"; canonical_value = content } ∷ []);
}

abbrev pub editor : Principal
editor = record {
  user_id = "usr_1";
  display_name = "Editor";
  email = none;
  auth_method = local;
  emergency_admin = false;
  high_risk_role = false;
  system_permissions = [];
  model_permissions = record { scope_id = "m"; permissions = model_permission_codes } ∷ [];
  config_namespace_permissions = [];
}

-- A call with the identifiers that it draws.
abbrev pub env : ℕ → String → String → String → String → Env
env now entry revision event audit = record {
  principal = editor;
  now = now;
  new_id = λ prefix. ok (
      if prefix =s= "ent_"
      then entry
      else if prefix =s= "rev_"
      then revision
      else if prefix =s= "wfe_"
      then event
      else audit);
  audit_check = λ event. none;
  commit = none;
  resolve_assets = λ revision. none;
  media_enabled = false;
  rules = rules;
}

abbrev pub articles : ContentModel
articles = record {
  id = "m";
  key = "articles";
  status = ResourceStatus.active;
  updated_at = 0;
  fields = no_fields;
}

-- One model and no content.
abbrev pub no_content : Db
no_content = record {
  models = λ id. if id =s= "m" then some articles else none;
  entries = λ id. none;
  revisions = λ id. none;
  draft_pointers = λ id. none;
  published_pointers = λ id. none;
  unique_values = λ m f v. none;
  field_values = [];
  relations = [];
  asset_references = [];
  assets = λ id. none;
  workflow_events = [];
  audit_events = [];
}

abbrev pub env1 : Env
env1 = env 1 "e1" "r1" "w1" "a1"

abbrev pub env2 : Env
env2 = env 2 "e2" "r2" "w2" "a2"

abbrev pub env3 : Env
env3 = env 3 "e3" "r3" "w3" "a3"

abbrev pub env4 : Env
env4 = env 4 "e4" "r4" "w4" "a4"

-- A created entry, one under review, and one published.
abbrev pub created : Db
created = (create env1 "m" "hello" no_content).1

abbrev pub in_review : Db
in_review = (perform env2 submits "m" "e1" "r1" created).1

abbrev pub online : Db
online = (perform env3 approves "m" "e1" "r1" in_review).1

pub no_content-IsValid : IsValid no_content
no_content-IsValid = record {
  consistent = record { pointed = λ e p h. absurd (cc); live = λ j r h s. absurd (cc) };
  owned = λ j r h. absurd (cc);
  drafted = λ e row h. absurd (cc);
  no_stray = λ e h. refl;
}

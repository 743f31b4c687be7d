-- ===== src/Tests/Config.antt =====
-- The configuration service: runs, and the properties at them.
use golang_cms.Prelude.{
  keep, String, true, false, none, some, List, [], ◌∷◌, ◌=s=◌, if◌then◌else◌, ◌≡◌, refl, lookup,
  Bool, Option, ap, subst, sym, eq_iff, contains, sort_strings, arith,
}
use golang_cms.AppError.{Result, ok, err}
use golang_cms.Database.{before, within_tx}
use golang_cms.Identity.Defs.{new_principal, valid_unique_sorted, merged_at}
use golang_cms.Schema.{ResourceStatus}
use golang_cms.Identity.Types.{Principal, local}
use golang_cms.Permission.Defs.{Tables, UserRow, require_system_permission}
use golang_cms.Config.Types.{
  ItemValue, Namespace, NewItem, ConfigDb, ConfigEnv, submits, approves, ValueType, PublishedRow,
}
use golang_cms.Config.Repository.{count_active}
use golang_cms.Config.Calls.{
  ConfigCall, adds_item, creates_draft, reviews, archives_namespace, run_config_calls,
}
use golang_cms.Config.Kept.{IsValid}
use golang_cms.Config.Workflow.{review_tx}
use golang_cms.Config.Approved.{Approved, review_tx-Approved}
use golang_cms.Config.Runs.{run_config_calls-IsValid}

abbrev administrator_row : UserRow
administrator_row = record {
  display_name = "User";
  email = none;
  enabled = true;
  created_at = 0;
  updated_at = 0;
}

abbrev people : Tables
people = record {
  users = λ u. if u =s= "admin" then some administrator_row else none;
  local_credentials = ("admin", true) ∷ [];
  sms_credentials = λ u. none;
  phones = λ p. none;
  user_roles = [];
  roles = λ r. none;
  role_keys = λ k. none;
  role_system_permissions = [];
  role_model_permissions = [];
  role_config_namespace_permissions = [];
}

abbrev known : Principal
known = record {
  user_id = "admin";
  display_name = "User";
  email = none;
  auth_method = local;
  emergency_admin = true;
  high_risk_role = false;
  system_permissions = [];
  model_permissions = [];
  config_namespace_permissions = [];
}

abbrev config_env : String → ConfigEnv
config_env tag = record {
  tables = people;
  providers = record {
    active_models = some (ok []);
    active_config_namespaces = some (ok ("n" ∷ []));
  };
  principal = known;
  now = 5;
  new_id = λ prefix.
      ok (if prefix =s= "cit_" then "item" else if prefix =s= "crv_" then "revision" else tag);
  audit_check = λ event. none;
  commit = none;
  rules = record {
    validate_namespace = λ key name description. ok tt;
    validate_patch = λ name description. ok tt;
    validate_item = λ input. ok input;
    normalize = λ raw kind constraints. ok (raw, ([], []));
    assets_available = λ ids constraints. ok tt;
    relations_active = λ relations. ok tt;
    assets_publishable = λ id constraints. ok tt;
    relations_published = λ id. ok tt;
  };
}

abbrev namespace_row : Namespace
namespace_row = record {
  id = "n";
  key = "site";
  display_name = "Site";
  description = "";
  status = ResourceStatus.active;
  created_at = 0;
  updated_at = 0;
}

abbrev config_db : ConfigDb
config_db = record {
  namespaces = λ id. if id =s= "n" then some namespace_row else none;
  namespace_keys = λ key. if key =s= "site" then some "n" else none;
  items = [];
  item_keys = λ ns key. none;
  revisions = λ id. none;
  draft_pointers = λ id. none;
  published_pointers = [];
  asset_references = [];
  relations = [];
  workflow_events = [];
  audit_events = [];
}

abbrev title : NewItem
title = record {
  key = "title";
  display_name = "Title";
  description = "";
  value_type = ValueType.string;
  constraints = record { target_model_id = none; others = "" };
}

-- An item is added, its value written, submitted and published; the namespace cannot be archived.
abbrev config_calls : List (ConfigEnv × ConfigCall)
config_calls =
    (config_env "1", adds_item "n" title)
    ∷ (config_env "2", creates_draft "n" "item" "Home")
    ∷ (config_env "3", reviews submits "n" "item" "revision" "")
    ∷ (config_env "4", reviews approves "n" "item" "revision" "")
    ∷ (config_env "5", archives_namespace "n")
    ∷ []

abbrev published_item : PublishedRow
published_item = record { namespace_id = "n"; revision_id = "revision"; published_at = 5 }

-- The tables before the approval.
abbrev pending_db : ConfigDb
pending_db =
    run_config_calls
      ((config_env "1", adds_item "n" title)
        ∷ (config_env "2", creates_draft "n" "item" "Home")
        ∷ (config_env "3", reviews submits "n" "item" "revision" "")
        ∷ [])
      config_db

abbrev no_value : ItemValue
no_value = record {
  item = record {
    id = "";
    namespace_id = "";
    key = "";
    display_name = "";
    description = "";
    value_type = ValueType.string;
    constraints = title.constraints;
    status = ResourceStatus.active;
    created_by = "";
    created_at = 0;
    updated_at = 0;
  };
  draft = none;
  published_id = none;
  published = none;
}

abbrev approval : Result (ItemValue × ConfigDb)
approval = review_tx (config_env "4") approves "n" "item" "revision" "" pending_db

abbrev done : Result (ItemValue × ConfigDb) → ItemValue × ConfigDb
done (ok r) = r
done (err e) = (no_value, config_db)

record ConfigRuns : Type 0 where
  approved : approval ≡ ok (done approval)
  published :
      (run_config_calls config_calls config_db).published_pointers ≡ ("item", published_item) ∷ []
  counted : count_active "n" (run_config_calls config_calls config_db).items ≡ 1

config_runs : ConfigRuns
unfolding run_config_calls count_active within_tx require_system_permission contains new_principal
    valid_unique_sorted sort_strings before merged_at
config_runs = record { approved = refl; published = refl; counted = refl }

namespace_of : Option Namespace → Namespace
namespace_of none = namespace_row
namespace_of (some n) = n

namespace_row-id :
    (b : Bool) (ns : String) (n : Namespace)
    → (b ≡ true → ns ≡ "n")
    → (if b then some namespace_row else none) ≡ some n
    → n.id ≡ ns
unfolding namespace_of
namespace_row-id true ns n e h = subst (λ m. m.id ≡ ns) (ap namespace_of h) (sym (e refl))
namespace_row-id false ns n e h = absurd (cc)

config_db-IsValid : IsValid config_db
unfolding count_active lookup keep
config_db-IsValid = record {
  namespace_at =
      λ ns n h. namespace_row-id (ns =s= "n") ns n (λ t. ground (arith, eq_iff ns "n")) h;
  item_at = λ id item h. absurd (cc);
  bounded = λ ns. ground arith;
  closed = λ ns n h k. refl;
}

run_config_calls-IsValid_example : IsValid (run_config_calls config_calls config_db)
run_config_calls-IsValid_example = run_config_calls-IsValid config_calls config_db config_db-IsValid

review_tx-Approved_example :
    Approved (config_env "4") "n" "item" "revision" pending_db (done approval).1
review_tx-Approved_example =
    review_tx-Approved (config_env "4") "n" "item" "revision" "" pending_db (done approval).1
      (done approval).0 config_runs.approved

-- ===== src/Config/Calls.antt =====
-- internal/configuration/service.go: the calls, each with what it does before its transaction.
use golang_cms.Prelude.{String, not, List, [], ◌∷◌, Option, none, some, ◌=s=◌}
use golang_cms.AppError.{validation_failed, Result, guard}
use golang_cms.Database.{before, within_tx}
use golang_cms.Schema.{ResourceStatus}
use golang_cms.Config.Types.{Namespace, Item, ItemValue, ReviewAction, ConfigDb, ConfigEnv, NewItem}
use golang_cms.Config.Service.{
  create_namespace_tx, update_namespace_tx, archive_namespace_tx, create_item_tx, archive_item_tx,
  save_draft_tx,
}
use golang_cms.Config.Workflow.{check_action, review_tx}

-- `CreateNamespace`
unfoldable pub create_namespace_call :
    ConfigEnv → String → String → String → ConfigDb → Result Namespace × ConfigDb
unfolding create_namespace_tx
create_namespace_call env key name description =
    before (env.rules.validate_namespace key name description) λ _. before (env.new_id "cns_") λ id.
      within_tx env.commit (
        create_namespace_tx env (record {
          id = id;
          key = key;
          display_name = name;
          description = description;
          status = ResourceStatus.active;
          created_at = env.now;
          updated_at = env.now;
        }))

-- `UpdateNamespace`
unfoldable pub update_namespace_call :
    ConfigEnv → String → Option String → Option String → ConfigDb → Result Namespace × ConfigDb
unfolding update_namespace_tx
update_namespace_call env id name description =
    before (env.rules.validate_patch name description)
      λ _. within_tx env.commit (update_namespace_tx env id name description)

-- `CreateItem`
unfoldable pub create_item_call : ConfigEnv → String → NewItem → ConfigDb → Result Item × ConfigDb
unfolding create_item_tx
create_item_call env ns input = before (env.rules.validate_item input) λ checked.
    before (env.new_id "cit_") λ id. within_tx env.commit (create_item_tx env ns id checked)

-- `saveDraft`
unfoldable pub save_config_draft :
    ConfigEnv → String → String → Option String → String → ConfigDb → Result ItemValue × ConfigDb
unfolding save_draft_tx
save_config_draft env ns id base raw =
    before (env.new_id "crv_")
      λ revision. within_tx env.commit (save_draft_tx env ns id base raw revision)

-- `UpdateDraft`
unfoldable pub update_draft_call :
    ConfigEnv → String → String → String → String → ConfigDb → Result ItemValue × ConfigDb
unfolding save_config_draft
update_draft_call env ns id base raw =
    before (guard (not (base =s= "")) validation_failed)
      λ _. save_config_draft env ns id (some base) raw

-- `workflow`
unfoldable pub review_config :
    ConfigEnv
    → ReviewAction
    → String
    → String
    → String
    → String
    → ConfigDb
    → Result ItemValue × ConfigDb
unfolding check_action review_tx
review_config env action ns id revision reason =
    before (check_action action revision reason)
      λ text. within_tx env.commit (review_tx env action ns id revision text)

-- The calls of the service that write, but `UpdateItem`; `reviews` stands for `Submit`, `Approve`,
-- `Reject` and `Unpublish`.
pub data ConfigCall : Type 0 where
  adds_namespace : String → String → String → ConfigCall
  updates_namespace : String → Option String → Option String → ConfigCall
  archives_namespace : String → ConfigCall
  adds_item : String → NewItem → ConfigCall
  archives_item : String → String → ConfigCall
  creates_draft : String → String → String → ConfigCall
  updates_draft : String → String → String → String → ConfigCall
  reviews : ReviewAction → String → String → String → String → ConfigCall

-- The tables behind a call.
unfoldable pub config_call : ConfigEnv → ConfigCall → ConfigDb → ConfigDb
unfolding create_namespace_call update_namespace_call create_item_call save_config_draft
    update_draft_call review_config archive_namespace_tx archive_item_tx
config_call env (adds_namespace key name description) db =
    (create_namespace_call env key name description db).1
config_call env (updates_namespace id name description) db =
    (update_namespace_call env id name description db).1
config_call env (archives_namespace id) db =
    (within_tx env.commit (archive_namespace_tx env id) db).1
config_call env (adds_item ns input) db = (create_item_call env ns input db).1
config_call env (archives_item ns id) db = (within_tx env.commit (archive_item_tx env ns id) db).1
config_call env (creates_draft ns id raw) db = (save_config_draft env ns id none raw db).1
config_call env (updates_draft ns id base raw) db = (update_draft_call env ns id base raw db).1
config_call env (reviews action ns id revision reason) db =
    (review_config env action ns id revision reason db).1

-- Calls in sequence, each with its own clock, caller and commit.
unfoldable pub run_config_calls : List (ConfigEnv × ConfigCall) → ConfigDb → ConfigDb
unfolding config_call
run_config_calls [] db = db
run_config_calls ((env, call) ∷ calls) db = run_config_calls calls (config_call env call db)

-- ===== src/Config/Runs.antt =====
-- Any calls of the configuration service in sequence.
use golang_cms.Prelude.{String, not, List, [], ◌∷◌, Option, none, some, refl, ◌=s=◌}
use golang_cms.AppError.{validation_failed, guard}
use golang_cms.Database.{before-keeps, within_tx-keeps}
use golang_cms.Config.Types.{ConfigDb, ConfigEnv}
use golang_cms.Config.Service.{archive_namespace_tx, archive_item_tx}
use golang_cms.Config.Workflow.{check_action}
use golang_cms.Config.Calls.{
  ConfigCall, adds_namespace, updates_namespace, archives_namespace, adds_item, archives_item,
  creates_draft, updates_draft, reviews, config_call, run_config_calls, save_config_draft,
  create_namespace_call, update_namespace_call, create_item_call, update_draft_call, review_config,
}
use golang_cms.Config.Kept.{IsValid, Leaves-IsValid}
use golang_cms.Config.Transactions.{
  create_namespace_tx-IsValid, update_namespace_tx-IsValid, archive_namespace_tx-IsValid,
  create_item_tx-IsValid, archive_item_tx-IsValid, save_draft_tx-IsValid,
}
use golang_cms.Config.Reviewed.{review_tx-Leaves}

module _ (env : ConfigEnv) (db : ConfigDb) (v : IsValid db) where
  save_config_draft-IsValid :
      (ns id : String) (base : Option String) (raw : String)
      → IsValid (save_config_draft env ns id base raw db).1
  unfolding save_config_draft
  save_config_draft-IsValid ns id base raw =
      before-keeps IsValid (env.new_id "crv_") _ db v λ revision.
        within_tx-keeps IsValid env.commit _ db v
          λ a db' h. save_draft_tx-IsValid env db db' v ns id base raw revision a h

  config_call-IsValid : (call : ConfigCall) → IsValid (config_call env call db)
  unfolding config_call create_namespace_call update_namespace_call create_item_call
      update_draft_call review_config
  config_call-IsValid (adds_namespace key name description) =
      before-keeps IsValid (env.rules.validate_namespace key name description) _ db v λ _.
        before-keeps IsValid (env.new_id "cns_") _ db v λ id.
          within_tx-keeps IsValid env.commit _ db v
            λ a db' h. create_namespace_tx-IsValid env db db' v _ a refl h
  config_call-IsValid (updates_namespace id name description) =
      before-keeps IsValid (env.rules.validate_patch name description) _ db v λ _.
        within_tx-keeps IsValid env.commit _ db v
          λ a db' h. update_namespace_tx-IsValid env db db' v id name description a h
  config_call-IsValid (archives_namespace id) =
      within_tx-keeps IsValid env.commit (archive_namespace_tx env id) db v
        λ a db' h. archive_namespace_tx-IsValid env db db' v id a h
  config_call-IsValid (adds_item ns input) =
      before-keeps IsValid (env.rules.validate_item input) _ db v λ checked.
        before-keeps IsValid (env.new_id "cit_") _ db v λ id.
          within_tx-keeps IsValid env.commit _ db v
            λ a db' h. create_item_tx-IsValid env db db' v ns id checked a h
  config_call-IsValid (archives_item ns id) =
      within_tx-keeps IsValid env.commit (archive_item_tx env ns id) db v
        λ a db' h. archive_item_tx-IsValid env db db' v ns id a h
  config_call-IsValid (creates_draft ns id raw) = save_config_draft-IsValid ns id none raw
  config_call-IsValid (updates_draft ns id base raw) =
      before-keeps IsValid (guard (not (base =s= "")) validation_failed) _ db v
        λ _. save_config_draft-IsValid ns id (some base) raw
  config_call-IsValid (reviews action ns id revision reason) =
      before-keeps IsValid (check_action action revision reason) _ db v λ text.
        within_tx-keeps IsValid env.commit _ db v λ a db' h.
          Leaves-IsValid db db' (review_tx-Leaves env action ns id revision text db db' a h) v

-- If before any calls that write of the configuration service, UpdateItem aside, the rows stand at their
-- identifiers, each namespace has at most 100 active items and each archived one has none, then so it
-- is behind the calls, whatever their callers, clocks, identifiers, rules and commits.
pub run_config_calls-IsValid :
    (calls : List (ConfigEnv × ConfigCall)) (db : ConfigDb)
    → IsValid db
    → IsValid (run_config_calls calls db)
unfolding run_config_calls
run_config_calls-IsValid [] db v = v
run_config_calls-IsValid ((env, call) ∷ calls) db v =
    run_config_calls-IsValid calls (config_call env call db) (config_call-IsValid env db v call)

-- ===== src/Config/Reviewed.antt =====
-- The review of a revision writes neither namespaces nor items.
use golang_cms.Prelude.{String, ◌&&◌, ◌≡◌, ap, ◌∙◌, ◌=s=◌}
use golang_cms.AppError.{ok, ok-bind, ok-guard}
use golang_cms.Content.Types.{same_status}
use golang_cms.Config.Types.{ItemValue, ReviewAction, ConfigDb, ConfigEnv}
use golang_cms.Config.Repository.{
  is_active_status, get_namespace, get_item, get_item_value, get_config_revision, transition,
}
use golang_cms.Config.Service.{audit, resource_archived, current, require_namespace_permission}
use golang_cms.Config.Workflow.{
  review_tx, point, record_config_event, require_review, permission_of, expected_id, status_before,
  status_after, check_publishable, event_name, noted_submitter, noted_time,
}
use golang_cms.Config.Kept.{Leaves, rows, audit-Leaves, record_config_event-Leaves, point-Leaves}
use golang_cms.Accounts.Escalation.Linked.{ok-injective}

pub review_tx-Leaves :
    (env : ConfigEnv) (action : ReviewAction) (ns id revision_id reason : String)
    (db db' : ConfigDb) (a : ItemValue)
    → review_tx env action ns id revision_id reason db ≡ ok (a, db')
    → Leaves db db'
unfolding review_tx
review_tx-Leaves env action ns id revision_id reason db db' a h =
    ok-bind (current env) _ h λ who e k. ok-bind (get_namespace db ns) _ k λ n e2 k2.
      ok-bind (require_review action who n.id) _ k2 λ _ _ k3.
        ok-bind (require_namespace_permission who n.id (permission_of action)) _ k3 λ _ _ k4.
          ok-bind (get_item db ns id) _ k4 λ item e4 k5.
            ok-guard (is_active_status n.status && is_active_status item.status) resource_archived _
              k5
              λ _ k6. ok-bind (get_item_value db ns id) _ k6 λ value _ k7.
                ok-guard (expected_id action value =s= revision_id) _ _ k7 λ _ k8.
                  ok-bind (get_config_revision db ns id revision_id) _ k8 λ revision _ k9.
                    ok-guard (same_status revision.workflow_status (status_before action)) _ _ k9
                      λ _ k10. ok-bind (check_publishable env action revision) _ k10 λ _ _ k11.
                        ok-guard
                          (transition revision_id (status_before action) (status_after action)
                            (noted_submitter action who.user_id) (noted_time action env.now)
                            db.revisions).0
                          _ _ k11
                          λ _ k12.
                            ok-bind (point action env.now ns id value.published_id revision_id _) _
                              k12
                              λ db2 e13 k13. ok-bind (env.new_id "cwe_") _ k13 λ event_id _ k14.
                                ok-bind (record_config_event _ db2) _ k14 λ db3 e15 k15.
                                  ok-bind
                                    (audit env who (event_name action) "configuration_revision"
                                      revision_id db3)
                                    _ k15
                                    λ db4 e16 k16.
                                      point-Leaves action env.now ns id value.published_id
                                        revision_id _ db2 e13
                                      ∙ record_config_event-Leaves _ db2 db3 e15
                                      ∙ audit-Leaves env who _ _ revision_id db3 db4 e16
                                      ∙ ap (λ p. rows p.1) (ok-injective k16)

-- ===== src/Config/Workflow.antt =====
-- internal/configuration/service.go: the review of a revision.
use golang_cms.Prelude.{
  String, ℕ, not, ◌&&◌, ◌||◌, [], ◌∷◌, ◌++◌, Option, none, some, if◌then◌else◌, ◌=s=◌, ltb, any,
  trim_space, rune_count,
}
use golang_cms.AppError.{conflicting, failure, validation_failed, Result, ok, err, ◌>>=◌, guard}
use golang_cms.Database.{Tx}
use golang_cms.Identity.Types.{Principal}
use golang_cms.Content.Types.{WorkflowStatus, same_status}
use golang_cms.Config.Types.{
  ConfigRevision, ItemValue, ReviewAction, submits, approves, rejects, unpublishes, ConfigEvent,
  ConfigDb, ConfigEnv,
}
use golang_cms.Config.Repository.{
  is_active_status, get_namespace, get_item, get_item_value, get_config_revision, transition,
  set_published, delete_published,
}
use golang_cms.Config.Service.{audit, current, require_namespace_permission, resource_archived}

-- The arguments that `Submit`, `Approve`, `Reject` and `Unpublish` pass to `workflow`.
abbrev pub status_before : ReviewAction → WorkflowStatus
status_before submits = WorkflowStatus.draft
status_before approves = WorkflowStatus.pending_review
status_before rejects = WorkflowStatus.pending_review
status_before unpublishes = WorkflowStatus.published

abbrev pub status_after : ReviewAction → WorkflowStatus
status_after submits = WorkflowStatus.pending_review
status_after approves = WorkflowStatus.published
status_after rejects = WorkflowStatus.rejected
status_after unpublishes = WorkflowStatus.unpublished

abbrev pub permission_of : ReviewAction → String
permission_of submits = "config.submit"
permission_of approves = "config.publish"
permission_of rejects = "config.review"
permission_of unpublishes = "config.unpublish"

abbrev pub event_name : ReviewAction → String
event_name submits = "configuration_revision_submitted"
event_name approves = "configuration_revision_approved"
event_name rejects = "configuration_revision_rejected"
event_name unpublishes = "configuration_revision_unpublished"

abbrev pub draft_id : Option ConfigRevision → String
draft_id none = ""
draft_id (some r) = r.id

abbrev pub id_or_empty : Option String → String
id_or_empty none = ""
id_or_empty (some id) = id

-- The revision that the action is about.
abbrev pub expected_id : ReviewAction → ItemValue → String
expected_id unpublishes value = id_or_empty value.published_id
expected_id _ value = draft_id value.draft

abbrev pub require_review : ReviewAction → Principal → String → Result (Unit {0})
require_review approves who ns = require_namespace_permission who ns "config.review"
require_review _ who ns = ok tt

-- The checks of an approval.
abbrev pub check_publishable : ConfigEnv → ReviewAction → ConfigRevision → Result (Unit {0})
check_publishable env approves r = do
  _ ← env.rules.assets_publishable r.id r.constraints
  env.rules.relations_published r.id
check_publishable env _ r = ok tt

-- Only a submission notes who submits.
abbrev pub noted_submitter : ReviewAction → String → Option String
noted_submitter submits id = some id
noted_submitter _ id = none

abbrev pub noted_time : ReviewAction → ℕ → Option ℕ
noted_time submits now = some now
noted_time _ now = none

-- The revision that was published before an approval.
unfoldable pub retire : Option String → String → ConfigDb → Result ConfigDb
unfolding transition
retire none id db = ok db
retire (some old) id db =
    let (changed, revisions) =
      transition old WorkflowStatus.published WorkflowStatus.unpublished none none db.revisions in
    if old =s= id
    then ok db
    else if changed
    then ok (record db { revisions = revisions })
    else err (conflicting "workflow_revision_conflict")

-- The change of the published pointer.
unfoldable pub point :
    ReviewAction → ℕ → String → String → Option String → String → ConfigDb → Result ConfigDb
unfolding retire set_published delete_published
point approves now ns item old id db = do
  db2 ← retire old id db
  ok (set_published ns item id now db2)
point unpublishes now ns item old id db =
    let (deleted, db2) = delete_published ns item id db in
    if deleted then ok db2 else err (conflicting "workflow_revision_conflict")
point submits now ns item old id db = ok db
point rejects now ns item old id db = ok db

-- `CreateWorkflowEvent`
unfoldable pub record_config_event : ConfigEvent → ConfigDb → Result ConfigDb
unfolding any
record_config_event event db =
    if any (λ other. other.id =s= event.id) db.workflow_events
    then err failure
    else ok (record db { workflow_events = db.workflow_events ++ event ∷ [] })

abbrev pub reason_of : String → Option String
reason_of reason = if reason =s= "" then none else some reason

abbrev pub noted : Option String → Option ℕ → Option ConfigRevision → Option ConfigRevision
noted submitter at none = none
noted submitter at (some r) = some (record r { submitted_by = submitter; submitted_at = at })

-- The value that the action answers.
unfoldable pub answer :
    ReviewAction → String → ConfigRevision → Option String → Option ℕ → ItemValue → ItemValue
answer action id revision submitter at value =
    let moved : ConfigRevision = record revision { workflow_status = status_after action } in
    let draft = if draft_id value.draft =s= id then some moved else value.draft in
    elim action [
      | submits ↦ record value { draft = noted submitter at draft }
      | approves ↦ record value { draft = draft; published_id = some id; published = draft }
      | rejects ↦ record value { draft = draft }
      | unpublishes ↦ record value { draft = draft; published_id = none; published = none }
    ]

-- The transaction of `workflow`.
unfoldable pub review_tx :
    ConfigEnv → ReviewAction → String → String → String → String → Tx ConfigDb ItemValue
unfolding current get_namespace require_namespace_permission get_item get_item_value
    get_config_revision transition point record_config_event audit answer
review_tx env action ns id revision_id reason db = do
  who ← current env
  n ← get_namespace db ns
  _ ← require_review action who n.id
  _ ← require_namespace_permission who n.id (permission_of action)
  item ← get_item db ns id
  _ ← guard (is_active_status n.status && is_active_status item.status) resource_archived
  value ← get_item_value db ns id
  _ ← guard (expected_id action value =s= revision_id) (conflicting "workflow_revision_conflict")
  revision ← get_config_revision db ns id revision_id
  _ ←
      guard (same_status revision.workflow_status (status_before action))
        (conflicting "invalid_workflow_transition")
  _ ← check_publishable env action revision
  let submitter = noted_submitter action who.user_id
  let at = noted_time action env.now
  let moved =
      transition revision_id (status_before action) (status_after action) submitter at db.revisions
  _ ← guard moved.0 (conflicting "invalid_workflow_transition")
  db2 ←
      point action env.now ns id value.published_id revision_id (record db { revisions = moved.1 })
  event_id ← env.new_id "cwe_"
  db3 ←
      record_config_event
        (record {
          id = event_id;
          item_id = id;
          namespace_id = ns;
          revision_id = revision_id;
          action = action;
          actor_id = who.user_id;
          reason = reason_of reason;
          occurred_at = env.now;
        })
        db2
  db4 ← audit env who (event_name action) "configuration_revision" revision_id db3
  ok (answer action revision_id revision submitter at value, db4)

-- `Submit`, `Approve`, `Reject` and `Unpublish`: a revision is required, and a reason of 1 to 1000
-- characters to reject.
unfoldable pub check_action : ReviewAction → String → String → Result String
unfolding trim_space
check_action rejects id reason = do
  let text = trim_space reason
  _ ← guard (not (ltb (rune_count text) 1 || ltb 1000 (rune_count text))) validation_failed
  _ ← guard (not (id =s= "")) validation_failed
  ok text
check_action submits id reason = do _ ← guard (not (id =s= "")) validation_failed; ok ""
check_action approves id reason = do _ ← guard (not (id =s= "")) validation_failed; ok ""
check_action unpublishes id reason = do _ ← guard (not (id =s= "")) validation_failed; ok ""

-- ===== src/Content/Workflow/Actions.antt =====
-- `Submit`, `Approve`, `Reject` and `Unpublish` of internal/content/service.go.
use golang_cms.Prelude.{String, true, false, ◌||◌, ltb, if◌then◌else◌, trim_space, rune_count}
use golang_cms.AppError.{validation_failed, Result, ok, err}
use golang_cms.Permission.Defs.{require_model_permission}
use golang_cms.Content.Types.{EventType, WorkflowStatus, Entry, Db, submitted, approved}
use golang_cms.Content.Env.{Env}
use golang_cms.Content.Workflow.{Transition, workflow}

abbrev pub submission : Transition
submission = record {
  event_type = submitted;
  from = WorkflowStatus.draft;
  to = WorkflowStatus.pending_review;
  permission = "content.submit";
  reason = "";
  draft_pointer = true;
}

abbrev pub approval : Transition
approval = record {
  event_type = approved;
  from = WorkflowStatus.pending_review;
  to = WorkflowStatus.published;
  permission = "content.publish";
  reason = "";
  draft_pointer = false;
}

abbrev pub rejection : String → Transition
rejection reason = record {
  event_type = EventType.rejected;
  from = WorkflowStatus.pending_review;
  to = WorkflowStatus.rejected;
  permission = "content.review";
  reason = reason;
  draft_pointer = false;
}

abbrev pub unpublication : Transition
unpublication = record {
  event_type = EventType.unpublished;
  from = WorkflowStatus.published;
  to = WorkflowStatus.unpublished;
  permission = "content.unpublish";
  reason = "";
  draft_pointer = false;
}

-- `Submit`
unfoldable pub submit : Env → String → String → String → Db → Result Entry × Db
submit env = workflow env submission

-- `Approve`
unfoldable pub approve : Env → String → String → String → Db → Result Entry × Db
approve env model_id entry_id revision_id db =
    elim (require_model_permission env.principal model_id "content.review") [
      | err e ↦ (err e, db)
      | ok _ ↦ workflow env approval model_id entry_id revision_id db
    ]

-- `Reject`
unfoldable pub reject : Env → String → String → String → String → Db → Result Entry × Db
reject env model_id entry_id revision_id reason db =
    let trimmed = trim_space reason in
    if ltb (rune_count trimmed) 1 || ltb 1000 (rune_count trimmed)
    then (err validation_failed, db)
    else workflow env (rejection trimmed) model_id entry_id revision_id db

-- `Unpublish`
unfoldable pub unpublish : Env → String → String → String → Db → Result Entry × Db
unpublish env = workflow env unpublication

-- The four actions of a reviewer, with the arguments that they give to `workflow`.
pub data Action : Type 0 where
  submits approves unpublishes : Action
  rejects : String → Action

abbrev pub transition_of : Action → Transition
transition_of submits = submission
transition_of approves = approval
transition_of unpublishes = unpublication
transition_of (rejects reason) = rejection reason

-- A call of one of the four.
unfoldable pub perform : Env → Action → String → String → String → Db → Result Entry × Db
perform env submits model_id entry_id revision_id = submit env model_id entry_id revision_id
perform env approves model_id entry_id revision_id = approve env model_id entry_id revision_id
perform env unpublishes model_id entry_id revision_id = unpublish env model_id entry_id revision_id
perform env (rejects reason) model_id entry_id revision_id =
    reject env model_id entry_id revision_id reason

-- ===== src/Config/Approved.antt =====
-- What an approval of the configuration asks for, and what it publishes.
use golang_cms.Prelude.{
  sym, String, ℕ, if◌then◌else◌, Table, assign, Bool, true, false, ◌&&◌, Option, none, some, ◌≡◌,
  refl, ap, ◌∙◌, subst, ◌=s=◌, any, arith, eq_iff, lookup, lookup-assign,
}
use golang_cms.AppError.{guard, ok, ok-bind, ok-guard, ok-unless, ok-if, err, conflicting}
use golang_cms.Audit.{append_to}
use golang_cms.Identity.Types.{Principal}
use golang_cms.Identity.Normalize.{holds}
use golang_cms.Permission.Defs.{denied}
use golang_cms.Content.Types.{WorkflowStatus, same_status}
use golang_cms.Config.Types.{
  ConfigRevision, ConfigEvent, Namespace, Item, ItemValue, approves, ConfigDb, ConfigEnv,
  PublishedRow,
}
use golang_cms.Config.Repository.{
  published_row, is_active_status, get_namespace, get_item, get_item_value, get_config_revision,
  transition, set_published,
}
use golang_cms.Config.Service.{audit, resource_archived, current, require_namespace_permission}
use golang_cms.Config.Workflow.{
  review_tx, point, retire, record_config_event, draft_id, check_publishable,
}
use golang_cms.Accounts.Escalation.Linked.{ok-injective}

audit-pointers :
    (env : ConfigEnv) (who : Principal) (action kind id : String) (db db' : ConfigDb)
    → audit env who action kind id db ≡ ok db'
    → db.published_pointers ≡ db'.published_pointers
unfolding audit
audit-pointers env who action kind id db db' h = ok-bind (env.new_id "evt_") _ h λ event e k.
    ok-bind (append_to env.audit_check _ db.audit_events) _ k
      λ log e2 k2. ap (λ d. d.published_pointers) (ok-injective k2)

record_config_event-pointers :
    (event : ConfigEvent) (db db' : ConfigDb)
    → record_config_event event db ≡ ok db'
    → db.published_pointers ≡ db'.published_pointers
unfolding record_config_event
record_config_event-pointers event db db' h =
    ap (λ d. d.published_pointers)
      (ok-unless (any (λ other. other.id =s= event.id) db.workflow_events) _ db' _ h).1

-- The pointer behind an approval: a new one, or that of the item with a new revision and time.
abbrev pub pointer_at : String → String → ℕ → Option PublishedRow → PublishedRow
pointer_at ns id now none = record { namespace_id = ns; revision_id = id; published_at = now }
pointer_at ns id now (some p) = record {
  namespace_id = p.namespace_id;
  revision_id = id;
  published_at = now;
}

published_row-pointer_at :
    (ns id : String) (now : ℕ) (o : Option PublishedRow)
    → published_row ns id now o ≡ pointer_at ns id now o
published_row-pointer_at ns id now none = refl
published_row-pointer_at ns id now (some p) = refl

retire-pointers :
    (old : Option String) (id : String) (db db' : ConfigDb)
    → retire old id db ≡ ok db'
    → db.published_pointers ≡ db'.published_pointers
unfolding retire
retire-pointers none id db db' h = ap (λ d. d.published_pointers) (ok-injective h)
retire-pointers (some old) id db db' h = go (old =s= id) changed.0 h
  where
    changed : Bool × Table ConfigRevision
    changed =
        transition old WorkflowStatus.published WorkflowStatus.unpublished none none db.revisions

    go :
        (same moved : Bool)
        → (if same
            then ok db
            else if moved
            then ok (record db { revisions = changed.1 })
            else err (conflicting "workflow_revision_conflict"))
          ≡ ok db'
        → db.published_pointers ≡ db'.published_pointers
    go true moved k = ap (λ d. d.published_pointers) (ok-injective k)
    go false moved k = ap (λ d. d.published_pointers) (ok-if moved _ db' _ k).1

point-pointers :
    (now : ℕ) (ns item : String) (old : Option String) (id : String) (db db' : ConfigDb)
    → point approves now ns item old id db ≡ ok db'
    → lookup item db'.published_pointers
      ≡ some (pointer_at ns id now (lookup item db.published_pointers))
unfolding point set_published
point-pointers now ns item old id db db' h = ok-bind (retire old id db) _ h λ db2 e k.
    let row = published_row ns id now (lookup item db2.published_pointers) in
    let written : lookup item (assign item row db2.published_pointers) ≡ some row =
      ground (arith, eq_iff item item, lookup-assign item item row db2.published_pointers) in
    ap (λ d. lookup item d.published_pointers) (sym (ok-injective k))
    ∙ (written
        ∙ ap some (
            published_row-pointer_at ns id now (lookup item db2.published_pointers)
            ∙ ap (λ t. pointer_at ns id now (lookup item t))
                (sym (retire-pointers old id db db2 e))))

permitted :
    (who : Principal) (ns code : String) (u : Unit {0})
    → require_namespace_permission who ns code ≡ ok u
    → holds who.config_namespace_permissions ns code ≡ true
unfolding require_namespace_permission
permitted who ns code u h = go (holds who.config_namespace_permissions ns code) h
  where
    go : (b : Bool) → guard b denied ≡ ok u → b ≡ true
    go true k = refl
    go false k = absurd (cc)

-- The caller may review and publish in the active namespace, the revision is the draft of an active
-- item and under review, and behind the approval the item's published pointer is at it.
pub record Approved (env : ConfigEnv) (ns id revision_id : String) (db db' : ConfigDb)
    : Type 0 where
  pub who : Principal
  pub namespace : Namespace
  pub item : Item
  pub value : ItemValue
  pub revision : ConfigRevision
  pub is_current : current env ≡ ok who
  pub namespace_read : get_namespace db ns ≡ ok namespace
  pub may_review : holds who.config_namespace_permissions namespace.id "config.review" ≡ true
  pub may_publish : holds who.config_namespace_permissions namespace.id "config.publish" ≡ true
  pub item_read : get_item db ns id ≡ ok item
  pub active : (is_active_status namespace.status && is_active_status item.status) ≡ true
  pub value_read : get_item_value db ns id ≡ ok value
  pub is_draft : (draft_id value.draft =s= revision_id) ≡ true
  pub revision_read : get_config_revision db ns id revision_id ≡ ok revision
  pub pending : same_status revision.workflow_status WorkflowStatus.pending_review ≡ true
  pub published :
      lookup id db'.published_pointers
      ≡ some (pointer_at ns revision_id env.now (lookup id db.published_pointers))

-- A transaction of `Approve` that returns was called by one who may review and publish in the namespace,
-- which is active, found the revision to be the draft of an active item and under review, and leaves
-- the item's published pointer at it, with its namespace as it was if there was a pointer.
pub review_tx-Approved :
    (env : ConfigEnv) (ns id revision_id reason : String) (db db' : ConfigDb) (a : ItemValue)
    → review_tx env approves ns id revision_id reason db ≡ ok (a, db')
    → Approved env ns id revision_id db db'
unfolding review_tx
review_tx-Approved env ns id revision_id reason db db' a h = ok-bind (current env) _ h λ who e k.
    ok-bind (get_namespace db ns) _ k λ n e2 k2.
      ok-bind (require_namespace_permission who n.id "config.review") _ k2 λ u e3 k3.
        ok-bind (require_namespace_permission who n.id "config.publish") _ k3 λ u2 e4 k4.
          ok-bind (get_item db ns id) _ k4 λ item e5 k5.
            ok-guard (is_active_status n.status && is_active_status item.status) resource_archived _
              k5
              λ active k6. ok-bind (get_item_value db ns id) _ k6 λ value e7 k7.
                ok-guard (draft_id value.draft =s= revision_id) _ _ k7 λ drafted k8.
                  ok-bind (get_config_revision db ns id revision_id) _ k8 λ revision e9 k9.
                    ok-guard (same_status revision.workflow_status WorkflowStatus.pending_review) _
                      _ k9
                      λ pending k10.
                        ok-bind (check_publishable env approves revision) _ k10 λ _ _ k11. record {
                          who = who;
                          namespace = n;
                          item = item;
                          value = value;
                          revision = revision;
                          is_current = e;
                          namespace_read = e2;
                          may_review = permitted who n.id _ u e3;
                          may_publish = permitted who n.id _ u2 e4;
                          item_read = e5;
                          active = active;
                          value_read = e7;
                          is_draft = drafted;
                          revision_read = e9;
                          pending = pending;
                          published =
                              ok-guard
                                (transition revision_id WorkflowStatus.pending_review
                                  WorkflowStatus.published none none db.revisions).0
                                _ _ k11
                                λ _ k12.
                                  ok-bind
                                    (point approves env.now ns id value.published_id revision_id _)
                                    _ k12
                                    λ db2 e13 k13.
                                      ok-bind (env.new_id "cwe_") _ k13 λ event_id _ k14.
                                        ok-bind (record_config_event _ db2) _ k14 λ db3 e15 k15.
                                          ok-bind
                                            (audit env who "configuration_revision_approved"
                                              "configuration_revision" revision_id db3)
                                            _ k15
                                            λ db4 e16 k16.
                                              subst
                                                (λ m.
                                                  lookup id m
                                                  ≡ some (
                                                      pointer_at ns revision_id env.now
                                                        (lookup id db.published_pointers)))
                                                (record_config_event-pointers _ db2 db3 e15
                                                  ∙ audit-pointers env who _ _ revision_id db3 db4
                                                      e16
                                                  ∙ ap (λ p. p.1.published_pointers)
                                                      (ok-injective k16))
                                                (point-pointers env.now ns id value.published_id
                                                  revision_id _ db2 e13);
                        }

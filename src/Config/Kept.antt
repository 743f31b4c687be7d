-- ===== src/Config/Kept.antt =====
-- The transactions of the configuration keep its namespaces and items valid.
use golang_cms.Prelude.{
  String, ℕ, Bool, true, false, Option, none, some, ◌≡◌, subst, ap, delete, ◌∙◌, eq_iff,
  if◌then◌else◌, ◌=s=◌, any, arith, Table, Assoc, lookup,
}
use golang_cms.AppError.{ok, err, conflicting, ok-bind, ok-if, ok-unless, resource_not_found}
use golang_cms.Audit.{append_to}
use golang_cms.Identity.Types.{Principal}
use golang_cms.Permission.Defs.{is_some}
use golang_cms.Content.Types.{WorkflowStatus}
use golang_cms.Config.Types.{
  Namespace, Item, ConfigRevision, ReviewAction, submits, approves, rejects, unpublishes,
  ConfigEvent, ConfigDb, ConfigEnv,
}
use golang_cms.Config.Repository.{
  get_namespace, get_item, create_config_revision, transition, set_published, delete_published,
  is_pointer,
}
use golang_cms.Config.Service.{audit}
use golang_cms.Config.Workflow.{point, retire, record_config_event}
use golang_cms.Config.Valid.{Valid}
use golang_cms.Accounts.Escalation.Linked.{ok-injective}

abbrev pub IsValid : ConfigDb → Type 0
IsValid db = Valid db.namespaces db.items

abbrev pub rows : ConfigDb → Table Namespace × Assoc Item
rows db = (db.namespaces, db.items)

-- A step that writes neither namespaces nor items.
abbrev pub Leaves : ConfigDb → ConfigDb → Type 0
Leaves db db' = rows db ≡ rows db'

abbrev pub RowsValid : Table Namespace × Assoc Item → Type 0
RowsValid (namespaces, items) = Valid namespaces items

pub Leaves-IsValid : (db db' : ConfigDb) → Leaves db db' → IsValid db → IsValid db'
Leaves-IsValid db db' e v = subst RowsValid e v

pub audit-Leaves :
    (env : ConfigEnv) (who : Principal) (action kind id : String) (db db' : ConfigDb)
    → audit env who action kind id db ≡ ok db'
    → Leaves db db'
unfolding audit
audit-Leaves env who action kind id db db' h = ok-bind (env.new_id "evt_") _ h λ event e k.
    ok-bind (append_to env.audit_check _ db.audit_events) _ k λ log e2 k2. ap rows (ok-injective k2)

pub create_config_revision-Leaves :
    (r : ConfigRevision) (db db' : ConfigDb) → create_config_revision r db ≡ ok db' → Leaves db db'
unfolding create_config_revision
create_config_revision-Leaves r db db' h =
    ap rows (ok-unless (is_some (db.revisions r.id)) _ db' _ h).1

pub record_config_event-Leaves :
    (event : ConfigEvent) (db db' : ConfigDb)
    → record_config_event event db ≡ ok db'
    → Leaves db db'
unfolding record_config_event
record_config_event-Leaves event db db' h =
    ap rows (ok-unless (any (λ other. other.id =s= event.id) db.workflow_events) _ db' _ h).1

pub retire-Leaves :
    (old : Option String) (id : String) (db db' : ConfigDb)
    → retire old id db ≡ ok db'
    → Leaves db db'
unfolding retire
retire-Leaves none id db db' h = ap rows (ok-injective h)
retire-Leaves (some old) id db db' h = go (old =s= id) changed.0 h
  where
    changed : Bool × Table ConfigRevision
    changed =
        transition old WorkflowStatus.published WorkflowStatus.unpublished none none db.revisions

    go :
        (same moved : Bool)
        → (if same
            then ok db
            else if moved
            then ok (record db { revisions = changed.1 })
            else err (conflicting "workflow_revision_conflict"))
          ≡ ok db'
        → Leaves db db'
    go true moved k = ap rows (ok-injective k)
    go false moved k = ap rows (ok-if moved _ db' _ k).1

pub point-Leaves :
    (action : ReviewAction) (now : ℕ) (ns item : String) (old : Option String) (id : String)
    (db db' : ConfigDb)
    → point action now ns item old id db ≡ ok db'
    → Leaves db db'
unfolding point set_published delete_published
point-Leaves submits now ns item old id db db' h = ap rows (ok-injective h)
point-Leaves rejects now ns item old id db db' h = ap rows (ok-injective h)
point-Leaves approves now ns item old id db db' h =
    ok-bind (retire old id db) _ h
      λ db2 e k. retire-Leaves old id db db2 e ∙ ap rows (ok-injective k)
point-Leaves unpublishes now ns item old id db db' h =
    go (is_pointer ns id (lookup item db.published_pointers)) h
  where
    go :
        (b : Bool)
        → let (deleted, db2) : Bool × ConfigDb =
            if b
            then (true, record db { published_pointers = delete item db.published_pointers })
            else (false, db) in
          (if deleted then ok db2 else err (conflicting "workflow_revision_conflict")) ≡ ok db'
          → Leaves db db'
    go true k = ap rows (ok-injective k)
    go false k = absurd (cc)

pub get_namespace-there :
    (db : ConfigDb) (id : String) (n : Namespace)
    → get_namespace db id ≡ ok n
    → db.namespaces id ≡ some n
unfolding get_namespace
get_namespace-there db id n h = go (db.namespaces id) h
  where
    go :
        (o : Option Namespace)
        → elim o [ none ↦ err resource_not_found | some n ↦ ok n ] ≡ ok n
        → o ≡ some n
    go none k = absurd (cc)
    go (some other) k = ap some (ok-injective k)

pub get_item-there :
    (db : ConfigDb) (ns id : String) (item : Item)
    → get_item db ns id ≡ ok item
    → (lookup id db.items ≡ some item) × (item.namespace_id ≡ ns)
unfolding get_item
get_item-there db ns id item h = go (lookup id db.items) h
  where
    go :
        (o : Option Item)
        → elim o [
          | none ↦ err resource_not_found
          | some item ↦ if item.namespace_id =s= ns then ok item else err resource_not_found
        ]
          ≡ ok item
        → (o ≡ some item) × (item.namespace_id ≡ ns)
    go none k = absurd (cc)
    go (some other) k =
        let (t, e) = ok-if (other.namespace_id =s= ns) other item _ k in
        (ap some e, ground (arith, eq_iff item.namespace_id ns))

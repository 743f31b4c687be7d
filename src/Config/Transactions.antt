-- ===== src/Config/Transactions.antt =====
-- Each transaction of the configuration keeps its namespaces and items valid.
use golang_cms.Prelude.{
  String, true, not, ◌&&◌, ◌||◌, Option, some, ◌≡◌, refl, sym, subst, ap, ◌∙◌, ◌<◌, ltb, arith,
  Table, Assoc, lookup, assign,
}
use golang_cms.AppError.{Result, ok, ◌>>=◌, ok-bind, ok-guard}
use golang_cms.Identity.Types.{Principal}
use golang_cms.Permission.Defs.{is_some}
use golang_cms.Config.Types.{Namespace, Item, ItemValue, ConfigDb, ConfigEnv, NewItem}
use golang_cms.Config.Repository.{
  is_active_status, get_namespace, get_item, get_item_value, create_item, create_namespace,
  update_namespace, update_item, count_active, has_active, has_published, create_config_revision,
  set_config_draft, active_in,
}
use golang_cms.Config.Service.{
  audit, resource_archived, administrator, current, require_namespace_permission,
  create_namespace_tx, update_namespace_tx, archive_namespace_tx, create_item_tx, archive_item_tx,
  check_base, references, save_draft_tx, target_model,
}
use golang_cms.Config.Valid.{Valid, put-Valid, add-Valid, write-Valid, has_active-false}
use golang_cms.Config.Kept.{
  RowsValid, IsValid, Leaves-IsValid, audit-Leaves, create_config_revision-Leaves,
  get_namespace-there, get_item-there,
}
use golang_cms.Accounts.Escalation.Linked.{ok-injective}

abbrev answered : {A : Type 0} → A → ConfigDb → Result (A × ConfigDb)
answered x db = ok (x, db)

module _ (env : ConfigEnv) (db db' : ConfigDb) (v : IsValid db) where
  -- The event at the end of a transaction.
  audited :
      {A : Type 0} (who : Principal) (action kind id : String) (db2 : ConfigDb) (x a : A)
      → IsValid db2
      → (audit env who action kind id db2 >>= answered x) ≡ ok (a, db')
      → IsValid db'
  audited who action kind id db2 x a w h = ok-bind (audit env who action kind id db2) _ h λ db3 e k.
      subst IsValid (ap (λ p. p.1) (ok-injective k))
        (Leaves-IsValid db2 db3 (audit-Leaves env who action kind id db2 db3 e) w)

  pub create_namespace_tx-IsValid :
      (n a : Namespace)
      → is_active_status n.status ≡ true
      → create_namespace_tx env n db ≡ ok (a, db')
      → IsValid db'
  unfolding create_namespace_tx create_namespace
  create_namespace_tx-IsValid n a active h =
      ok-bind (administrator env "configurations.create") _ h λ who e k.
        ok-bind (create_namespace n db) _ k λ db2 e2 k2.
          ok-guard (not (is_some (db.namespaces n.id) || is_some (db.namespace_keys n.key))) _ _ e2
            λ free e3.
              audited who _ _ n.id db2 n a
                (subst IsValid (ok-injective e3)
                  (put-Valid db.namespaces db.items v n (λ no. absurd (cc))))
                k2

  pub update_namespace_tx-IsValid :
      (id : String) (name description : Option String) (a : Namespace)
      → update_namespace_tx env id name description db ≡ ok (a, db')
      → IsValid db'
  unfolding update_namespace_tx update_namespace
  update_namespace_tx-IsValid id name description a h =
      ok-bind (administrator env "configurations.update") _ h λ who e k.
        ok-bind (get_namespace db id) _ k λ n e2 k2.
          ok-guard (is_active_status n.status) resource_archived _ k2 λ active k3.
            audited who _ _ id _ _ a (put-Valid db.namespaces db.items v _ (λ no. absurd (cc))) k3

  pub archive_namespace_tx-IsValid :
      (id : String) (a : Unit {0}) → archive_namespace_tx env id db ≡ ok (a, db') → IsValid db'
  unfolding archive_namespace_tx update_namespace
  archive_namespace_tx-IsValid id a h =
      ok-bind (administrator env "configurations.archive") _ h λ who e k.
        ok-bind (get_namespace db id) _ k λ n e2 k2.
          ok-guard (is_active_status n.status) resource_archived _ k2 λ active k3.
            ok-guard (not (has_active id db.items)) _ _ k3 λ empty k4.
              ok-guard (not (has_published id db.published_pointers)) _ _ k4 λ _ k5.
                audited who _ _ id _ _ a
                  (put-Valid db.namespaces db.items v _ (λ no.
                    subst (λ i. count_active i db.items ≡ 0)
                      (sym (v.namespace_at id n (get_namespace-there db id n e2)))
                      (has_active-false id db.items (ground arith))))
                  k5

  create_item-IsValid :
      (item : Item) (n : Namespace) (db2 : ConfigDb)
      → count_active item.namespace_id db.items < 100
      → db.namespaces item.namespace_id ≡ some n
      → is_active_status n.status ≡ true
      → create_item item db ≡ ok db2
      → IsValid db2
  unfolding create_item
  create_item-IsValid item n db2 room there active h =
      ok-guard
        (not
          (is_some (lookup item.id db.items) || is_some (db.item_keys item.namespace_id item.key)))
        _ _ h
        λ free k.
          subst IsValid (ok-injective k)
            (add-Valid db.namespaces db.items v item n (ground arith) room there active)

  pub create_item_tx-IsValid :
      (ns id : String) (input : NewItem) (a : Item)
      → create_item_tx env ns id input db ≡ ok (a, db')
      → IsValid db'
  unfolding create_item_tx create_item
  create_item_tx-IsValid ns id input a h =
      ok-bind (administrator env "configurations.create") _ h λ who e k.
        ok-bind (get_namespace db ns) _ k λ n e2 k2.
          ok-guard (is_active_status n.status) resource_archived _ k2 λ active k3.
            ok-guard (ltb (count_active ns db.items) 100) _ _ k3 λ room k4.
              ok-bind (create_item _ db) _ k4 λ db2 e5 k5.
                audited who _ _ id db2 _ a
                  (create_item-IsValid _ n db2 (ground arith) (get_namespace-there db ns n e2)
                    active e5)
                  k5

  -- An item of the transaction written back.
  rewritten :
      (id : String) (old item : Item)
      → lookup id db.items ≡ some old
      → item.id ≡ old.id
      → ((i : String) → active_in i item ≡ true → active_in i old ≡ true)
      → Valid db.namespaces (assign item.id item db.items)
  rewritten id old item there same less =
      write-Valid db.namespaces db.items v item old
        (subst (λ i. lookup i db.items ≡ some old) (sym (same ∙ v.item_at id old there)) there) less

  pub archive_item_tx-IsValid :
      (ns id : String) (a : Unit {0}) → archive_item_tx env ns id db ≡ ok (a, db') → IsValid db'
  unfolding archive_item_tx update_item
  archive_item_tx-IsValid ns id a h =
      ok-bind (administrator env "configurations.archive") _ h λ who e k.
        ok-bind (get_namespace db ns) _ k λ n e2 k2.
          ok-bind (require_namespace_permission who n.id "config.archive") _ k2 λ _ e3 k3.
            ok-bind (get_item db ns id) _ k3 λ item e4 k4.
              ok-guard (is_active_status item.status) resource_archived _ k4 λ active k5.
                ok-bind (get_item_value db ns id) _ k5 λ value e6 k6.
                  ok-guard (not (is_some value.published_id)) _ _ k6 λ _ k7.
                    audited who _ _ id _ _ a
                      (rewritten id item _ (get_item-there db ns id item e4).0 refl
                        (λ i. ground arith))
                      k7

  pub save_draft_tx-IsValid :
      (ns id : String) (base : Option String) (raw revision_id : String) (a : ItemValue)
      → save_draft_tx env ns id base raw revision_id db ≡ ok (a, db')
      → IsValid db'
  unfolding save_draft_tx update_item set_config_draft
  save_draft_tx-IsValid ns id base raw revision_id a h = ok-bind (current env) _ h λ who e k.
      ok-bind (get_namespace db ns) _ k λ n e2 k2.
        ok-bind (require_namespace_permission who n.id _) _ k2 λ _ e3 k3.
          ok-bind (get_item db ns id) _ k3 λ item e4 k4.
            ok-guard (is_active_status n.status && is_active_status item.status) resource_archived _
              k4
              λ active k5.
                ok-bind (env.rules.normalize raw item.value_type item.constraints) _ k5
                  λ (value, (assets, targets)) e6 k6.
                    ok-bind (get_item_value db ns id) _ k6 λ found e7 k7.
                      ok-bind (check_base base found.draft) _ k7 λ _ e8 k8.
                        ok-bind (env.rules.assets_available assets item.constraints) _ k8 λ _ e9 k9.
                          ok-bind
                            (env.rules.relations_active (
                              references revision_id item (target_model item.constraints) 0
                                targets))
                            _ k9
                            λ _ e10 k10. ok-bind (create_config_revision _ db) _ k10 λ db2 e11 k11.
                              audited who _ _ revision_id _ _ a
                                (subst RowsValid
                                  (ap
                                    (λ (r : Table Namespace × Assoc Item). (
                                      r.0,
                                      assign item.id (record item { updated_at = env.now }) r.1,
                                    ))
                                    (create_config_revision-Leaves _ db db2 e11))
                                  (rewritten id item (record item { updated_at = env.now })
                                    (get_item-there db ns id item e4).0 refl (λ i. λ t. t)))
                                k11

-- ===== src/Lifecycle/Resume/Registry.antt =====
-- `resume_tenant` of control-plane/lifecycle.py, and the registry.
use saas_ntier_lab.Prelude.{
  String, ◌≡◌, refl, sym, ap, ◌∙◌, Bool, true, false, Option, none, some, List, arith,
}
use saas_ntier_lab.Errors.{ok, err, Error}
use saas_ntier_lab.Ids.Grammar.{IsTenantId, validate_of_IsTenantId}
use saas_ntier_lab.Store
use saas_ntier_lab.Store.{Row, Table, Status, merge, fresh}
use saas_ntier_lab.Store.Versions.{stored}
use saas_ntier_lab.Exec.{
  Platform, World, Outputs, lift, tofu_outputs, store_list, store_get, store_upsert,
}
use saas_ntier_lab.Exec.Keeps.{Keeps, Keeps-lift}
use saas_ntier_lab.Exec.Frame.{
  Tabled, tabled_rules, spawn-Tabled, tofu_outputs-Tabled, store_list-Tabled,
}
use saas_ntier_lab.Exec.Undone.{
  RollsBack, bind-RollsBack, upsert-RollsBack, raise-RollsBack, pure-RollsBack,
}
use saas_ntier_lab.Exec.Returns.{Returns, Returns-rest, Returns-weaken, upsert-Returns}
use saas_ntier_lab.Shell.{run}
use saas_ntier_lab.AwsIdentity.{merge_identity_maps, cp_identities, IdentityMaps}
use saas_ntier_lab.Onboard.{node_ip, uses_controller}
use saas_ntier_lab.Onboard.Keeps.{node_ip-Keeps, wait-Keeps, write_alb_url-Keeps}
use saas_ntier_lab.Onboard.Install.{onboard}
use saas_ntier_lab.Onboard.Install.Keeps.{onboard-Keeps}
use saas_ntier_lab.Provision.{maps_of}
use saas_ntier_lab.Lifecycle.{tenant_ns, scale_to}
use saas_ntier_lab.Lifecycle.Keeps.{run-Keeps}
use saas_ntier_lab.Lifecycle.Resume.{
  rollout_status, needs_identity, resumed_fields, resumed_url, start_tenant, resume_from,
  resume_found, resume_tenant,
}

resumed_row :
    (now k alb : String) (item : Row) (o : Option Row) (r : Row)
    → r ≡ stored now k (resumed_fields alb k item) o
    → r.status ≡ Status.active
unfolding fresh merge
resumed_row now k alb item none r q = ground arith
resumed_row now k alb item (some old) r q = ground arith

module _ (p : Platform) (chart_dir guardrails_dir tofu_dir : String) where
  url-Keeps :
      {Q : Table → Type 0} (k : String) (o : Outputs) (b : Bool)
      → Keeps (Tabled p Q) (resumed_url p chart_dir guardrails_dir tofu_dir k o b)
  unfolding resumed_url
  url-Keeps k o true = search (tabled_rules, wait-Keeps, write_alb_url-Keeps)
  url-Keeps k o false = search tabled_rules

  merged : Outputs → List Row → IdentityMaps
  merged o rows = merge_identity_maps o (cp_identities rows)

  start-RollsBack :
      (k : String) (item : Row)
      → RollsBack (start_tenant p chart_dir guardrails_dir tofu_dir k item)
  unfolding start_tenant merged
  start-RollsBack k item =
      bind-RollsBack tofu_outputs _ (λ t. tofu_outputs-Tabled)
        (λ o.
          bind-RollsBack store_list _ (λ t. store_list-Tabled)
            (λ rows.
              bind-RollsBack (lift (needs_identity k (merged o rows))) _ (λ t. Keeps-lift _)
                (λ _.
                  bind-RollsBack (node_ip p) _ (λ t. node_ip-Keeps)
                    (λ ip.
                      bind-RollsBack
                        (onboard p chart_dir guardrails_dir k o ip (maps_of (merged o rows))) _
                        (λ t.
                          onboard-Keeps chart_dir guardrails_dir k o ip (maps_of (merged o rows)))
                        (λ _.
                          bind-RollsBack (run p (scale_to (tenant_ns k) "1")) _
                            (λ t. run-Keeps (scale_to (tenant_ns k) "1") (spawn-Tabled _))
                            (λ _.
                              bind-RollsBack (run p (rollout_status (tenant_ns k))) _
                                (λ t. run-Keeps (rollout_status (tenant_ns k)) (spawn-Tabled _))
                                (λ _.
                                  bind-RollsBack
                                    (resumed_url p chart_dir guardrails_dir tofu_dir k o
                                      (uses_controller o))
                                    _ (λ t. url-Keeps k o (uses_controller o))
                                    (λ alb. upsert-RollsBack k (resumed_fields alb k item)))))))))

  -- The tenant's row is in the registry, and says ACTIVE.
  abbrev IsActive : String → Row → World p → Type 0
  IsActive k r w = (Store.get w.table k ≡ some r) × (r.status ≡ Status.active)

  start-Returns :
      (k : String) (item : Row)
      → Returns (IsActive k) (start_tenant p chart_dir guardrails_dir tofu_dir k item)
  unfolding start_tenant merged
  start-Returns k item = Returns-rest tofu_outputs _ (λ o. Returns-rest store_list _ (λ rows.
      Returns-rest (lift (needs_identity k (merged o rows))) _ (λ _.
        Returns-rest (node_ip p) _ (λ ip.
          Returns-rest (onboard p chart_dir guardrails_dir k o ip (maps_of (merged o rows))) _ (λ _.
            Returns-rest (run p (scale_to (tenant_ns k) "1")) _ (λ _.
              Returns-rest (run p (rollout_status (tenant_ns k))) _ (λ _.
                Returns-rest
                  (resumed_url p chart_dir guardrails_dir tofu_dir k o (uses_controller o)) _
                  (λ alb.
                    Returns-weaken (store_upsert k (resumed_fields alb k item))
                      (upsert-Returns k (resumed_fields alb k item))
                      (λ r w s. (s.found, resumed_row s.now k alb item s.before r s.row))))))))))

  from-Returns :
      (k : String) (status : Status) (row : Row) (w : World p) (r : Row)
      → row.status ≡ status
      → Store.get w.table k ≡ some row
      → (resume_from p chart_dir guardrails_dir tofu_dir k status row w).0 ≡ ok r
      → IsActive k r (resume_from p chart_dir guardrails_dir tofu_dir k status row w).1
  unfolding resume_from
  from-Returns k Status.active row w r s g q =
      let same : row ≡ r = cc in (g ∙ ap some same, rw (sym same) s)
  from-Returns k Status.suspended row w r s g q = (start-Returns k row).at w r q
  from-Returns k Status.failed row w r s g q = cc
  from-Returns k Status.drift row w r s g q = cc
  from-Returns k Status.provisioning row w r s g q = cc
  from-Returns k Status.deleting row w r s g q = cc
  from-Returns k Status.delete_failed row w r s g q = cc
  from-Returns k (Status.other t) row w r s g q = cc

  from-RollsBack :
      (k : String) (status : Status) (row : Row)
      → RollsBack (resume_from p chart_dir guardrails_dir tofu_dir k status row)
  unfolding resume_from
  from-RollsBack k Status.active row = pure-RollsBack row
  from-RollsBack k Status.suspended row = start-RollsBack k row
  from-RollsBack k Status.failed row = raise-RollsBack _
  from-RollsBack k Status.drift row = raise-RollsBack _
  from-RollsBack k Status.provisioning row = raise-RollsBack _
  from-RollsBack k Status.deleting row = raise-RollsBack _
  from-RollsBack k Status.delete_failed row = raise-RollsBack _
  from-RollsBack k (Status.other t) row = raise-RollsBack _

  resume_from_row :
      (k : String) (w : World p)
      → IsTenantId k
      → resume_tenant p chart_dir guardrails_dir tofu_dir k w
        ≡ resume_found p chart_dir guardrails_dir tofu_dir k (Store.get w.table k) w
  unfolding resume_tenant store_get
  resume_from_row k w v = rw (validate_of_IsTenantId k v) refl

  -- When resuming a tenant that is in the registry under a valid id returns, it returns the row that the
  -- registry then has, and that row says ACTIVE.
  pub resume_tenant_returns :
      (k : String) (w : World p) (row r : Row)
      → IsTenantId k
      → Store.get w.table k ≡ some row
      → (resume_tenant p chart_dir guardrails_dir tofu_dir k w).0 ≡ ok r
      → (Store.get (resume_tenant p chart_dir guardrails_dir tofu_dir k w).1.table k ≡ some r)
        × (r.status ≡ Status.active)
  unfolding resume_found
  resume_tenant_returns k w row r v g q =
      let same : resume_tenant p chart_dir guardrails_dir tofu_dir k w
          ≡ resume_from p chart_dir guardrails_dir tofu_dir k row.status row w =
        resume_from_row k w v ∙ rw g refl in
      rw same (from-Returns k row.status row w r refl g (rw same at q))

  -- When resuming a tenant with a valid id raises, whether its identity is missing, the release is not
  -- installed, the roll-out is not done in time or the load balancer has no address, the registry is as
  -- it was: no row says ACTIVE that did not before.
  pub resume_tenant_rolls_back :
      (k : String) (w : World p) (e : Error)
      → IsTenantId k
      → (resume_tenant p chart_dir guardrails_dir tofu_dir k w).0 ≡ err e
      → (resume_tenant p chart_dir guardrails_dir tofu_dir k w).1.table ≡ w.table
  unfolding resume_found
  resume_tenant_rolls_back k w e v q =
      let same = resume_from_row k w v in rw same (by (Store.get w.table k) (rw same at q))
    where
      by :
          (o : Option Row)
          → (resume_found p chart_dir guardrails_dir tofu_dir k o w).0 ≡ err e
          → (resume_found p chart_dir guardrails_dir tofu_dir k o w).1.table ≡ w.table
      by none q = refl
      by (some row) q = (from-RollsBack k row.status row).at w e q

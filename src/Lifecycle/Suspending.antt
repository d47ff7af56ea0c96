-- ===== src/Lifecycle/Suspending.antt =====
-- `suspend_tenant` of control-plane/lifecycle.py, and the registry.
pub mod Keeps
use saas_ntier_lab.Prelude.{String, ◌≡◌, refl, sym, ap, ◌∙◌, Option, none, some, arith}
use saas_ntier_lab.Errors.{ok, err, Error}
use saas_ntier_lab.Ids.Grammar.{IsTenantId, validate_of_IsTenantId}
use saas_ntier_lab.Store
use saas_ntier_lab.Store.{Row, Fields, Table, Status, Desired, merge, fresh, desired_or_inferred}
use saas_ntier_lab.Store.Versions.{stored}
use saas_ntier_lab.Exec.{Platform, World, store_get}
use saas_ntier_lab.Exec.Returns.{Returns, Returns-rest, upsert-Returns}
use saas_ntier_lab.Exec.Frame.{spawn-Tabled}
use saas_ntier_lab.Exec.Undone.{RollsBack, bind-RollsBack, upsert-RollsBack}
use saas_ntier_lab.Shell.{run, run_ok}
use saas_ntier_lab.Lifecycle.{
  tenant_ns, scale_to, delete_ingress, suspended_fields, stop_tenant, suspend_from, suspend_found,
  suspend_tenant,
}
use saas_ntier_lab.Lifecycle.Keeps.{run-Keeps, run_ok-Keeps}

columns :
    (now k : String) (o : Option Row) (r : Row)
    → r ≡ stored now k suspended_fields o
    → r.status ≡ Status.suspended
unfolding fresh merge
columns now k none r q = ground arith
columns now k (some old) r q = ground arith

module _ {p : Platform} where
  stop-RollsBack : (k : String) → RollsBack (stop_tenant p k)
  unfolding stop_tenant
  stop-RollsBack k =
      bind-RollsBack (run p (scale_to (tenant_ns k) "0")) _
        (λ t. run-Keeps (scale_to (tenant_ns k) "0") (spawn-Tabled _))
        (λ _.
          bind-RollsBack (run_ok p (delete_ingress (tenant_ns k))) _
            (λ t. run_ok-Keeps (delete_ingress (tenant_ns k)) (spawn-Tabled _))
            (λ _. upsert-RollsBack k suspended_fields))

  -- The tenant's row is in the registry, and says SUSPENDED.
  abbrev IsSuspended : String → Row → World p → Type 0
  IsSuspended k r w = (Store.get w.table k ≡ some r) × (r.status ≡ Status.suspended)

  stop-Returns : (k : String) → Returns (IsSuspended k) (stop_tenant p k)
  unfolding stop_tenant
  stop-Returns k = Returns-rest (run p (scale_to (tenant_ns k) "0")) _ (λ _.
      Returns-rest (run_ok p (delete_ingress (tenant_ns k))) _ (λ _. record {
        at = λ w r q.
            let s = (upsert-Returns k suspended_fields).at w r q in
            (s.found, columns s.now k s.before r s.row);
      }))

  from-Returns :
      (k : String) (status : Status) (row : Row) (w : World p) (r : Row)
      → row.status ≡ status
      → Store.get w.table k ≡ some row
      → (suspend_from p k status row w).0 ≡ ok r
      → IsSuspended k r (suspend_from p k status row w).1
  unfolding suspend_from
  from-Returns k Status.suspended row w r s g q =
      let same : row ≡ r = cc in (g ∙ ap some same, rw (sym same) s)
  from-Returns k Status.active row w r s g q = (stop-Returns k).at w r q
  from-Returns k Status.failed row w r s g q = (stop-Returns k).at w r q
  from-Returns k Status.drift row w r s g q = (stop-Returns k).at w r q
  from-Returns k Status.provisioning row w r s g q = cc
  from-Returns k Status.deleting row w r s g q = cc
  from-Returns k Status.delete_failed row w r s g q = cc
  from-Returns k (Status.other t) row w r s g q = cc

  from-RollsBack :
      (k : String) (status : Status) (row : Row) → RollsBack (suspend_from p k status row)
  unfolding suspend_from
  from-RollsBack k Status.suspended row = record { at = λ w e h. refl }
  from-RollsBack k Status.active row = stop-RollsBack k
  from-RollsBack k Status.failed row = stop-RollsBack k
  from-RollsBack k Status.drift row = stop-RollsBack k
  from-RollsBack k Status.provisioning row = record { at = λ w e h. refl }
  from-RollsBack k Status.deleting row = record { at = λ w e h. refl }
  from-RollsBack k Status.delete_failed row = record { at = λ w e h. refl }
  from-RollsBack k (Status.other t) row = record { at = λ w e h. refl }

  -- When suspending a tenant that is in the registry under a valid id returns, it returns the row that the registry then has, and that
  -- row says SUSPENDED.
  pub suspend_tenant_returns :
      (k : String) (w : World p) (row r : Row)
      → IsTenantId k
      → Store.get w.table k ≡ some row
      → (suspend_tenant p k w).0 ≡ ok r
      → (Store.get (suspend_tenant p k w).1.table k ≡ some r) × (r.status ≡ Status.suspended)
  unfolding suspend_tenant store_get suspend_found
  suspend_tenant_returns k w row r v g q =
      let same : suspend_tenant p k w ≡ suspend_from p k row.status row w =
        rw (validate_of_IsTenantId k v) (rw g) in
      rw same (from-Returns k row.status row w r refl g (rw same at q))

  -- When suspending a tenant with a valid id raises, as when the workload cannot be scaled down or the status does not
  -- allow it, the registry is as it was: no row says SUSPENDED that did not before.
  pub suspend_tenant_rolls_back :
      (k : String) (w : World p) (e : Error)
      → IsTenantId k
      → (suspend_tenant p k w).0 ≡ err e
      → (suspend_tenant p k w).1.table ≡ w.table
  unfolding suspend_tenant store_get suspend_found
  suspend_tenant_rolls_back k w e v q =
      let same : suspend_tenant p k w ≡ suspend_found p k (Store.get w.table k) w =
        rw (validate_of_IsTenantId k v) in
      rw same (by (Store.get w.table k) (rw same at q))
    where
      by :
          (o : Option Row)
          → (suspend_found p k o w).0 ≡ err e
          → (suspend_found p k o w).1.table ≡ w.table
      by none q = refl
      by (some row) q = (from-RollsBack k row.status row).at w e q

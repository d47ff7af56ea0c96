-- ===== src/Lifecycle/Suspending/Keeps.antt =====
-- `suspend_tenant` of control-plane/lifecycle.py and the registry's invariant.
use saas_ntier_lab.Prelude.{String, Option, none, some}
use saas_ntier_lab.Store.{Row, Status}
use saas_ntier_lab.Exec.{Platform}
use saas_ntier_lab.Exec.Keeps.{Keeps, Registered, registered_rules}
use saas_ntier_lab.Lifecycle.Keeps.{run-Keeps, run_ok-Keeps}
use saas_ntier_lab.Lifecycle.{stop_tenant, suspend_from, suspend_found, suspend_tenant}

module _ {p : Platform} where
  stop-Registered : (k : String) → Keeps (Registered p) (stop_tenant p k)
  unfolding stop_tenant
  stop-Registered k = search (registered_rules, run-Keeps, run_ok-Keeps)

  from-Registered :
      (k : String) (s : Status) (item : Row) → Keeps (Registered p) (suspend_from p k s item)
  unfolding suspend_from
  from-Registered k Status.suspended item = search registered_rules
  from-Registered k Status.active item = stop-Registered k
  from-Registered k Status.failed item = stop-Registered k
  from-Registered k Status.drift item = stop-Registered k
  from-Registered k _ item = search registered_rules

  found-Registered : (k : String) (o : Option Row) → Keeps (Registered p) (suspend_found p k o)
  unfolding suspend_found
  found-Registered k none = search registered_rules
  found-Registered k (some item) = from-Registered k item.status item

  pub suspend_tenant-Registered : (k : String) → Keeps (Registered p) (suspend_tenant p k)
  unfolding suspend_tenant
  suspend_tenant-Registered k = search (registered_rules, found-Registered)

-- ===== src/Reconcile/Keeps.antt =====
-- The registry's invariant under `reconcile_one` and the sweep of control-plane/reconcile.py.
use saas_ntier_lab.Prelude.{String, Option, none, some}
use saas_ntier_lab.Errors.{Error}
use saas_ntier_lab.Store.{Row, Desired}
use saas_ntier_lab.Observe.{Observed}
use saas_ntier_lab.Exec.{Platform}
use saas_ntier_lab.Exec.Keeps.{Keeps, Registered, registered_rules}
use saas_ntier_lab.Reconcile.{
  Action, no_action, purge_registry, provision, repair, suspend, resume, delete, Report, Handlers,
  gate, settle, perform, record_failure, confirm_row, confirm, finish, act, reconcile_found,
  reconcile_one,
}

-- The functions that reconciling is given keep the invariant.
pub record IsSafe {p : Platform} (h : Handlers p) : Type 0 where
  pub observe : (k : String) (r : Row) → Keeps (Registered p) (h.observe k r)
  pub provision_fn : (k tier : String) → Keeps (Registered p) (h.provision_fn k tier)
  pub suspend_fn : (k : String) → Keeps (Registered p) (h.suspend_fn k)
  pub resume_fn : (k : String) → Keeps (Registered p) (h.resume_fn k)
  pub delete_fn : (k : String) → Keeps (Registered p) (h.delete_fn k)

module _ {p : Platform} (h : Handlers p) (safe : IsSafe h) where
  settle-Registered :
      (d : Desired) (k : String) (o : Observed) (r : Row) (why : String)
      → Keeps (Registered p) (settle h d k o r why)
  unfolding settle
  settle-Registered Desired.gone k o r why = search registered_rules
  settle-Registered Desired.suspended k o r why = search registered_rules
  settle-Registered _ k o r why = search registered_rules

  perform-Registered :
      (a : Action) (k : String) (r : Row) (why : String)
      → Keeps (Registered p) (perform h a k r why)
  unfolding perform
  perform-Registered no_action k r why = search registered_rules
  perform-Registered purge_registry k r why = search registered_rules
  perform-Registered provision k r why = search (registered_rules, safe.provision_fn)
  perform-Registered repair k r why = search (registered_rules, safe.provision_fn)
  perform-Registered suspend k r why = search (registered_rules, safe.suspend_fn)
  perform-Registered resume k r why = search (registered_rules, safe.resume_fn)
  perform-Registered delete k r why = search (registered_rules, safe.delete_fn)

  failure-Registered :
      {A : Type 0} (d : Desired) (k : String) (e : Error)
      → Keeps (Registered p) (record_failure h {A = A} d k e)
  unfolding record_failure
  failure-Registered d k e = search registered_rules

  row-Registered :
      (a : Action) (d : Desired) (k why : String) (r : Row)
      → Keeps (Registered p) (confirm_row h a d k why r)
  unfolding confirm_row gate
  row-Registered a d k why r = search (registered_rules, safe.observe) depth 9

  finish-Registered :
      (a : Action) (d : Desired) (k why : String) (o : Option Report)
      → Keeps (Registered p) (finish h a d k why o)
  unfolding finish confirm
  finish-Registered a d k why (some report) = search registered_rules
  finish-Registered a d k why none = search (registered_rules, row-Registered)

  act-Registered :
      (a : Action) (d : Desired) (k : String) (o : Observed) (r : Row) (why : String)
      → Keeps (Registered p) (act h a d k o r why)
  unfolding act
  act-Registered no_action d k o r why = settle-Registered d k o r why
  act-Registered purge_registry d k o r why = search registered_rules
  act-Registered a d k o r why =
      search (registered_rules, perform-Registered, failure-Registered, finish-Registered)

  found-Registered : (k : String) (o : Option Row) → Keeps (Registered p) (reconcile_found h k o)
  unfolding reconcile_found
  found-Registered k none = search registered_rules
  found-Registered k (some r) = search (registered_rules, safe.observe, act-Registered) depth 9

  pub reconcile_one-Registered : (k : String) → Keeps (Registered p) (reconcile_one h k)
  unfolding reconcile_one
  reconcile_one-Registered k = search (registered_rules, found-Registered)

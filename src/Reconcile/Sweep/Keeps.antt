-- ===== src/Reconcile/Sweep/Keeps.antt =====
-- The registry's invariant under the sweep of control-plane/reconcile.py.
use saas_ntier_lab.Prelude.{String, List, [], ◌∷◌}
use saas_ntier_lab.Store.{Row}
use saas_ntier_lab.Exec.{Platform, Exec}
use saas_ntier_lab.Exec.Keeps.{Keeps, Keeps-bind, Registered, registered_rules}
use saas_ntier_lab.Exec.Frame.{framed-Registered, store_list-Tabled}
use saas_ntier_lab.Reconcile.{Handlers}
use saas_ntier_lab.Reconcile.Keeps.{IsSafe, reconcile_one-Registered}
use saas_ntier_lab.Reconcile.Sweep.{sweep_failure, sweep_one, sweep_rows, reconcile_all}

module _ {p : Platform} (h : Handlers p) (safe : IsSafe h) where
  pub one-Registered : (r : Row) → Keeps (Registered p) (sweep_one h r)
  unfolding sweep_one sweep_failure
  one-Registered r = search (registered_rules, reconcile_one-Registered, safe) depth 9

  rows-Registered : (rs : List Row) → Keeps (Registered p) (sweep_rows h rs)
  unfolding sweep_rows
  rows-Registered [] = search registered_rules
  rows-Registered (r ∷ rs) =
      Keeps-bind (sweep_one h r) _ (one-Registered r)
        (λ e. Keeps-bind (sweep_rows h rs) _ (rows-Registered rs) (λ rest. search registered_rules))

  pub reconcile_all-Registered :
      (ns : Exec p (List String))
      → Keeps (Registered p) ns
      → Keeps (Registered p) (reconcile_all h ns)
  unfolding reconcile_all
  reconcile_all-Registered ns kept =
      search (registered_rules, framed-Registered, store_list-Tabled, rows-Registered) depth 9

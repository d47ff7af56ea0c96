-- ===== src/Observe/Kubectl/Keeps.antt =====
-- `KubectlObserver` of control-plane/observe.py changes only what its questions change.
use saas_ntier_lab.Prelude.{String, Bool, true, false, Option, List}
use saas_ntier_lab.Exec.{Platform, World, Exec}
use saas_ntier_lab.Exec.Keeps.{Keeps, keeps_rules}
use saas_ntier_lab.Observe.Kubectl.{Object, observe, observe_live}

module _ {p : Platform} {P : World p → Type 0} (kubectl_json : List String → Exec p (Option Object))
    (asks : (args : List String) → Keeps P (kubectl_json args)) where
  live-Keeps : (ns : String) (b : Bool) → Keeps P (observe_live kubectl_json ns b)
  unfolding observe_live
  live-Keeps ns true = search (keeps_rules, asks) depth 16
  live-Keeps ns false = search keeps_rules

  pub observe-Keeps : (k : String) → Keeps P (observe kubectl_json k)
  unfolding observe
  observe-Keeps k = search (keeps_rules, asks, live-Keeps)

-- ===== src/Lifecycle/Resume/Keeps.antt =====
-- `resume_tenant` of control-plane/lifecycle.py and the registry's invariant.
use saas_ntier_lab.Prelude.{String, Bool, true, false, Option, none, some}
use saas_ntier_lab.Store.{Row, Table, Status}
use saas_ntier_lab.Exec.{Platform, Outputs}
use saas_ntier_lab.Exec.Keeps.{Keeps, Registered, registered_rules}
use saas_ntier_lab.Exec.Frame.{Tabled, tabled_rules, framed-Registered, store_list-Tabled}
use saas_ntier_lab.Onboard.Install.Keeps.{onboard-Keeps}
use saas_ntier_lab.Onboard.Keeps.{node_ip-Keeps, wait-Keeps, write_alb_url-Keeps}
use saas_ntier_lab.Lifecycle.Keeps.{run-Keeps}
use saas_ntier_lab.Lifecycle.Resume.{
  resumed_url, start_tenant, resume_from, resume_found, resume_tenant,
}

module _ {p : Platform} (chart_dir guardrails_dir tofu_dir : String) where
  url-Keeps :
      {Q : Table → Type 0} (k : String) (o : Outputs) (b : Bool)
      → Keeps (Tabled p Q) (resumed_url p chart_dir guardrails_dir tofu_dir k o b)
  unfolding resumed_url
  url-Keeps k o true = search (tabled_rules, wait-Keeps, write_alb_url-Keeps)
  url-Keeps k o false = search tabled_rules

  start-Registered :
      (k : String) (item : Row)
      → Keeps (Registered p) (start_tenant p chart_dir guardrails_dir tofu_dir k item)
  unfolding start_tenant
  start-Registered k item =
      search
        (
          registered_rules, framed-Registered, store_list-Tabled, node_ip-Keeps, onboard-Keeps,
          url-Keeps, run-Keeps,
        )
        depth 16

  from-Registered :
      (k : String) (s : Status) (item : Row)
      → Keeps (Registered p) (resume_from p chart_dir guardrails_dir tofu_dir k s item)
  unfolding resume_from
  from-Registered k Status.active item = search registered_rules
  from-Registered k Status.suspended item = start-Registered k item
  from-Registered k _ item = search registered_rules

  found-Registered :
      (k : String) (o : Option Row)
      → Keeps (Registered p) (resume_found p chart_dir guardrails_dir tofu_dir k o)
  unfolding resume_found
  found-Registered k none = search registered_rules
  found-Registered k (some item) = from-Registered k item.status item

  pub resume-Registered :
      (k : String) → Keeps (Registered p) (resume_tenant p chart_dir guardrails_dir tofu_dir k)
  unfolding resume_tenant
  resume-Registered k = search (registered_rules, found-Registered)

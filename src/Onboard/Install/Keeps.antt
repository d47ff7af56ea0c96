-- ===== src/Onboard/Install/Keeps.antt =====
-- `onboard` of helm/test-app/onboard_tenant.py leaves the registry alone.
use saas_ntier_lab.Prelude.{String, Bool, true, false}
use saas_ntier_lab.Store.{Table}
use saas_ntier_lab.Exec.{Platform, Outputs}
use saas_ntier_lab.Exec.Keeps.{Keeps}
use saas_ntier_lab.Exec.Frame.{Tabled, tabled_rules}
use saas_ntier_lab.Onboard.Install.{
  Maps, Release, onboard, install, edge_of, controller_edge, node_port_edge, migration,
  await_migration,
}
use saas_ntier_lab.Onboard.Keeps.{run_checked-Keeps, run_out-Keeps, run_fed-Keeps, guardrails-Keeps}

module _ {p : Platform} {Q : Table → Type 0} (chart_dir guardrails_dir : String) where
  edge_of-Keeps :
      (r : Release) (ip : String) (o : Outputs)
      → Keeps (Tabled p Q) (edge_of p chart_dir guardrails_dir r ip o)
  unfolding edge_of controller_edge node_port_edge
  edge_of-Keeps r ip o = search (tabled_rules, guardrails-Keeps) depth 9

  migration-Keeps :
      (r : Release) (o : Outputs) (b : Bool)
      → Keeps (Tabled p Q) (migration p chart_dir guardrails_dir r o b)
  unfolding migration
  migration-Keeps r o true = search (tabled_rules, run_checked-Keeps) depth 9
  migration-Keeps r o false = search tabled_rules

  await-Keeps :
      (t : String) (b : Bool) → Keeps (Tabled p Q) (await_migration p chart_dir guardrails_dir t b)
  unfolding await_migration
  await-Keeps t true = run_checked-Keeps _
  await-Keeps t false = search tabled_rules

  install-Keeps :
      (r : Release) (ip : String) (o : Outputs)
      → Keeps (Tabled p Q) (install p chart_dir guardrails_dir r ip o)
  unfolding install
  install-Keeps r ip o =
      search
        (
          tabled_rules, edge_of-Keeps, migration-Keeps, await-Keeps, run_checked-Keeps,
          run_out-Keeps, run_fed-Keeps,
        )
        depth 16

  pub onboard-Keeps :
      (t : String) (o : Outputs) (ip : String) (m : Maps)
      → Keeps (Tabled p Q) (onboard p chart_dir guardrails_dir t o ip m)
  unfolding onboard
  onboard-Keeps t o ip m = search (tabled_rules, install-Keeps) depth 12

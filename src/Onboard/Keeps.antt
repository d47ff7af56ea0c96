-- ===== src/Onboard/Keeps.antt =====
-- The procedures of helm/test-app/onboard_tenant.py leave the registry alone.
use saas_ntier_lab.Prelude.{ℕ, zero, suc, String, Bool, true, false, Option, none, some, ltb, List}
use saas_ntier_lab.Errors.{Error}
use saas_ntier_lab.Store.{Table}
use saas_ntier_lab.Exec.{Platform, Exec, Outputs, time_now}
use saas_ntier_lab.Exec.Keeps.{Keeps, Keeps-bind}
use saas_ntier_lab.Exec.Frame.{Tabled, tabled_rules, time_now-Tabled}
use saas_ntier_lab.Exec.Poll.{Polled, poll, decide, look}
use saas_ntier_lab.Shell.{raise_some}
use saas_ntier_lab.Onboard.{
  run_checked, run_out, run_fed, node_ip, ask_node, ensure_platform_guardrails,
  wait_ingress_hostname, write_alb_url, look_hostname,
}

module _ {p : Platform} {Q : Table → Type 0} where
  pub raise_some-Keeps : (o : Option Error) → Keeps (Tabled p Q) (raise_some p o)
  unfolding raise_some
  raise_some-Keeps none = search tabled_rules
  raise_some-Keeps (some e) = search tabled_rules

  pub run_checked-Keeps : (cmd : List String) → Keeps (Tabled p Q) (run_checked p cmd)
  unfolding run_checked
  run_checked-Keeps cmd = search (tabled_rules, raise_some-Keeps)

  pub run_out-Keeps : (cmd : List String) → Keeps (Tabled p Q) (run_out p cmd)
  unfolding run_out
  run_out-Keeps cmd = search (tabled_rules)

  pub run_fed-Keeps : (cmd : List String) (text : String) → Keeps (Tabled p Q) (run_fed p cmd text)
  unfolding run_fed
  run_fed-Keeps cmd text = search (tabled_rules, raise_some-Keeps)

  pub node_ip-Keeps : Keeps (Tabled p Q) (node_ip p)
  unfolding node_ip ask_node
  node_ip-Keeps = search (tabled_rules, run_out-Keeps)

  looks :
      {A : Type 0} (pause : ℕ) (body : Exec p (Option A)) (again : Exec p (Polled A)) (b : Bool)
      → Keeps (Tabled p Q) body
      → Keeps (Tabled p Q) again
      → Keeps (Tabled p Q) (look pause body again b)
  looks pause body again false kb ka = search tabled_rules
  looks {A} pause body again true kb ka = Keeps-bind body _ kb decides
    where
      decides : (o : Option A) → Keeps (Tabled p Q) (decide pause body again o)
      decides (some a) = search tabled_rules
      decides none = search tabled_rules

  pub poll-Keeps :
      {A : Type 0} (pause : ℕ) (body : Exec p (Option A)) (fuel deadline : ℕ)
      → Keeps (Tabled p Q) body
      → Keeps (Tabled p Q) (poll pause body fuel deadline)
  unfolding poll
  poll-Keeps pause body zero deadline k = search tabled_rules
  poll-Keeps pause body (suc fuel) deadline k = Keeps-bind time_now _ time_now-Tabled (λ t.
      looks pause body (poll pause body fuel deadline) (ltb t deadline) k
        (poll-Keeps pause body fuel deadline k))

  pub guardrails-Keeps :
      (dir : String) (o : Outputs) → Keeps (Tabled p Q) (ensure_platform_guardrails p dir o)
  unfolding ensure_platform_guardrails
  guardrails-Keeps dir o = run_checked-Keeps _

  look_hostname-Keeps : (ns name : String) → Keeps (Tabled p Q) (look_hostname p ns name)
  unfolding look_hostname
  look_hostname-Keeps ns name = search (tabled_rules, run_out-Keeps)

  pub wait-Keeps :
      (ns name : String) (timeout : ℕ)
      → Keeps (Tabled p Q) (wait_ingress_hostname p ns name timeout)
  unfolding wait_ingress_hostname
  wait-Keeps ns name timeout = search (tabled_rules, poll-Keeps, look_hostname-Keeps) depth 8

  pub write_alb_url-Keeps : (dir host : String) → Keeps (Tabled p Q) (write_alb_url p dir host)
  unfolding write_alb_url
  write_alb_url-Keeps dir host = search tabled_rules

-- ===== src/ControlPlane/Keeps.antt =====
-- The registry's invariant under the functions that control-plane/reconcile.py calls by default.
use saas_ntier_lab.Prelude.{String, List}
use saas_ntier_lab.Store.{Table}
use saas_ntier_lab.Exec.{Platform, Exit, exited, killed, timed_out, not_started}
use saas_ntier_lab.Exec.Keeps.{Keeps, Registered, registered_rules}
use saas_ntier_lab.Exec.Frame.{Tabled, tabled_rules, framed-Registered}
use saas_ntier_lab.Observe.Kubectl.Keeps.{observe-Keeps}
use saas_ntier_lab.Lifecycle.Dropping.{delete_tenant-Registered}
use saas_ntier_lab.Lifecycle.Suspending.Keeps.{suspend_tenant-Registered}
use saas_ntier_lab.Lifecycle.Resume.Keeps.{resume-Registered}
use saas_ntier_lab.Provision.Keeps.{provision-Registered}
use saas_ntier_lab.Reconcile.Keeps.{IsSafe}
use saas_ntier_lab.ControlPlane.{
  Setup, kubectl_json, parsed, names_of, subprocess_ns, discover_active, defaults, resuming,
  deleting,
}

module _ (p : Platform) (s : Setup) where
  module _ {Q : Table → Type 0} where
    parsed-Keeps : (e : Exit) (out : String) → Keeps (Tabled p Q) (parsed p s e out)
    unfolding parsed
    parsed-Keeps (exited n) out = search tabled_rules
    parsed-Keeps (killed n) out = search tabled_rules
    parsed-Keeps timed_out out = search tabled_rules
    parsed-Keeps not_started out = search tabled_rules

    json-Keeps : (args : List String) → Keeps (Tabled p Q) (kubectl_json p s args)
    unfolding kubectl_json
    json-Keeps args = search (tabled_rules, parsed-Keeps)

    names-Keeps : (e : Exit) (out : String) → Keeps (Tabled p Q) (names_of p s e out)
    unfolding names_of
    names-Keeps (exited n) out = search tabled_rules
    names-Keeps (killed n) out = search tabled_rules
    names-Keeps timed_out out = search tabled_rules
    names-Keeps not_started out = search tabled_rules

    pub subprocess_ns-Keeps : Keeps (Tabled p Q) (subprocess_ns p s)
    unfolding subprocess_ns
    subprocess_ns-Keeps = search (tabled_rules, names-Keeps)

    pub discover_active-Keeps : Keeps (Tabled p Q) (discover_active p s)
    unfolding discover_active
    discover_active-Keeps = search (tabled_rules, subprocess_ns-Keeps)

  pub resuming-Registered : (k : String) → Keeps (Registered p) (resuming p s k)
  unfolding resuming
  resuming-Registered k = resume-Registered s.chart_dir s.guardrails_dir s.tofu_dir k

  pub deleting-Registered : (k : String) → Keeps (Registered p) (deleting p s k)
  unfolding deleting
  deleting-Registered k = delete_tenant-Registered p s.conditions s.tmp_dir k

  pub defaults-IsSafe : IsSafe (defaults p s)
  unfolding defaults
  defaults-IsSafe = record {
    observe = λ k r. framed-Registered _ (observe-Keeps (kubectl_json p s) json-Keeps k);
    provision_fn = λ k tier. provision-Registered s.chart_dir s.guardrails_dir s.tofu_dir k _;
    suspend_fn = λ k. search (registered_rules, suspend_tenant-Registered);
    resume_fn = λ k. search (registered_rules, resuming-Registered);
    delete_fn = deleting-Registered;
  }

-- ===== src/ControlPlane.antt =====
-- The control plane put together: what its entry points, control-plane/cli.py and control-plane/app.py,
-- run. The functions that reconciling calls by default, the cluster's namespaces, and the listing of
-- unmanaged ones of control-plane/provisioner.py.
pub mod Keeps
pub mod Jobs
pub mod Discovery
pub mod Server
use saas_ntier_lab.Prelude.{
  ℕ, String, Bool, Option, none, some, List, [], ◌∷◌, eqb, split, if◌then◌else◌,
}
use saas_ntier_lab.Errors.{Result, Kind}
use saas_ntier_lab.Store.{Row}
use saas_ntier_lab.Store.Legacy.{Meta}
use saas_ntier_lab.Exec.{
  Platform, Exec, Exit, exited, killed, timed_out, not_started, Outputs, ◌>>=◌, ◌>>◌, pure, raise,
  continue, capture_of, store_list,
}
use saas_ntier_lab.Shell.{error_of, missing_program}
use saas_ntier_lab.Observe.Kubectl.{Object, observe}
use saas_ntier_lab.Contract.{validate_active_contract}
use saas_ntier_lab.PgAdmin.{Conditions, drop_postgres_role}
use saas_ntier_lab.Provision.{provision, default_order}
use saas_ntier_lab.Lifecycle.{suspend_tenant, delete_tenant}
use saas_ntier_lab.Lifecycle.Resume.{resume_tenant}
use saas_ntier_lab.Adopt.{adopt_tenants}
use saas_ntier_lab.Reconcile.{Handlers}
use saas_ntier_lab.Reconcile.Sweep.{list_unmanaged_namespaces}

-- Where the charts, the stack, the registry and the temporary files are, what `json.loads` makes of
-- `kubectl`'s output, the conditions of a job or an object, and of the older registry's file, with
-- `none` for what is no JSON, and how many pages of secrets adopting reads at most.
pub record Setup : Type 0 where
  pub chart_dir : String
  pub guardrails_dir : String
  pub tofu_dir : String
  pub data_dir : String
  pub tmp_dir : String
  pub conditions : String → Result Conditions
  pub object : String → Option Object
  pub entries : String → Option (List (String × Meta))
  pub pages : ℕ

abbrev pub list_ns : List String
list_ns = "kubectl" ∷ "get" ∷ "ns" ∷ "-o" ∷ "jsonpath={.items[*].metadata.name}" ∷ []

abbrev pub with_json : List String → List String
with_json [] = "-o" ∷ "json" ∷ []
with_json (a ∷ args) = a ∷ with_json args

-- `discover_active`'s dict
pub record Listing : Type 0 where
  pub tenants : List Row
  pub unmanaged_namespaces : List String

module _ (p : Platform) (s : Setup) where
  pub parsed : Exit → String → Exec p (Option Object)
  unfolding missing_program
  parsed (exited n) out = pure (if eqb n 0 then s.object out else none)
  parsed (killed n) out = pure none
  parsed timed_out out = raise (error_of Kind.timeout_expired "timed out")
  parsed not_started out = raise missing_program

  -- `_kubectl_json` of control-plane/observe.py
  unfoldable pub kubectl_json : List String → Exec p (Option Object)
  unfolding capture_of parsed
  kubectl_json args = do r ← capture_of ("kubectl" ∷ with_json args); parsed r.0 r.1

  -- The names, or none if the program cannot be started; the exit code is not looked at, and the code
  -- sets no timeout.
  pub names_of : Exit → String → Exec p (List String)
  unfolding split
  names_of not_started out = pure []
  names_of timed_out out = raise (error_of Kind.timeout_expired "timed out")
  names_of _ out = pure (split out)

  -- `subprocess_ns` of control-plane/reconcile.py
  unfoldable pub subprocess_ns : Exec p (List String)
  unfolding capture_of names_of
  subprocess_ns = do r ← capture_of list_ns; names_of r.0 r.1

  -- `drop_postgres_role(outputs, tenant_id)`
  abbrev pub drop_role : Outputs → String → Exec p (Unit {0})
  drop_role o k = drop_postgres_role p s.conditions s.tmp_dir o k 300

  -- `suspend_tenant` and the others, as the control plane calls them.
  unfoldable pub resuming : String → Exec p Row
  resuming k = resume_tenant p s.chart_dir s.guardrails_dir s.tofu_dir k

  unfoldable pub deleting : String → Exec p (Unit {0})
  deleting k = delete_tenant p drop_role k

  -- The defaults of `reconcile_one`
  unfoldable pub defaults : Handlers p
  unfolding kubectl_json resuming deleting
  defaults = record {
    observe = λ k row. observe kubectl_json k;
    provision_fn =
        λ k tier. provision p s.chart_dir s.guardrails_dir s.tofu_dir k (default_order tier);
    suspend_fn = λ k. (do _ ← suspend_tenant p k; pure tt);
    resume_fn = λ k. (do _ ← resuming k; pure tt);
    delete_fn = deleting;
    contract_fn = validate_active_contract;
  }

  -- `discover_active` of control-plane/provisioner.py
  unfoldable pub discover_active : Exec p Listing
  unfolding subprocess_ns store_list list_unmanaged_namespaces
  discover_active = do
    known ← store_list
    ns ← subprocess_ns
    rows ← store_list
    pure (record { tenants = rows; unmanaged_namespaces = list_unmanaged_namespaces ns known })

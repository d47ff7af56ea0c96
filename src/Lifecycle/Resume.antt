-- ===== src/Lifecycle/Resume.antt =====
-- control-plane/lifecycle.py: `resume_tenant`.
pub mod Registry
pub mod Keeps
use saas_ntier_lab.Prelude.{
  ℕ, String, Bool, true, false, ◌&&◌, Option, none, some, List, [], ◌∷◌, ◌==◌, ◌<>◌, or_else, repr,
  contains, rstrip_slash, if◌then◌else◌,
}
use saas_ntier_lab.Errors.{Result, ok, err, Error, Kind}
use saas_ntier_lab.Ids.{validate_tenant_id}
use saas_ntier_lab.Store.{Row, Fields, Status, Desired, no_fields, status_text}
use saas_ntier_lab.Exec.{
  Platform, Exec, Outputs, ◌>>=◌, ◌>>◌, pure, raise, continue, lift, store_get, store_list,
  store_upsert, tofu_outputs,
}
use saas_ntier_lab.Shell.{error_of, run}
use saas_ntier_lab.AwsIdentity.{IdentityMaps, merge_identity_maps, cp_identities}
use saas_ntier_lab.Onboard.{
  onboard_error, uses_controller, node_ip, wait_ingress_hostname, write_alb_url,
}
use saas_ntier_lab.Onboard.Install.{onboard}
use saas_ntier_lab.Provision.{maps_of, endpoint_of}
use saas_ntier_lab.Lifecycle.{tenant_ns, scale_to, not_found}

abbrev pub rollout_status : String → List String
rollout_status ns =
    "kubectl" ∷ "-n" ∷ ns ∷ "rollout" ∷ "status" ∷ "deploy/test-app" ∷ "--timeout=180s" ∷ []

abbrev pub no_identity : String → Error
no_identity tenant_id =
    onboard_error ("tenant " <> repr tenant_id <> " missing identity maps; cannot resume")

-- Both maps have to have the tenant.
abbrev pub needs_identity : String → IdentityMaps → Result (Unit {0})
needs_identity tenant_id merged =
    if contains tenant_id merged.irsa && contains tenant_id merged.secrets
    then ok tt
    else err (no_identity tenant_id)

abbrev or_kept : Option String → Option String → Option String
or_kept (some s) kept = some s
or_kept none kept = kept

-- The keyword arguments of the write of `resume_tenant`; `item` is the row that it has read.
abbrev pub resumed_fields : String → String → Row → Fields
resumed_fields alb tenant_id item = record no_fields {
  desired_status = some Desired.active;
  status = some Status.active;
  endpoint = some (or_kept (endpoint_of alb tenant_id) item.endpoint);
  path_prefix = some (some ("/tenant-" <> tenant_id));
  error = some none;
}

module _ (p : Platform) (chart_dir guardrails_dir tofu_dir : String) where
  -- `alb`
  pub resumed_url : String → Outputs → Bool → Exec p String
  unfolding wait_ingress_hostname write_alb_url rstrip_slash
  resumed_url tenant_id o true = do
    host ← wait_ingress_hostname p (tenant_ns tenant_id) "test-app" 300
    write_alb_url p tofu_dir host
  resumed_url tenant_id o false = pure (rstrip_slash (or_else o.alb_url ""))

  -- The part of `resume_tenant` behind its guards.
  pub start_tenant : String → Row → Exec p Row
  unfolding tofu_outputs store_list merge_identity_maps cp_identities node_ip onboard run
      resumed_url store_upsert
  start_tenant tenant_id item = do
    o ← tofu_outputs
    rows ← store_list
    let merged = merge_identity_maps o (cp_identities rows)
    lift (needs_identity tenant_id merged)
    ip ← node_ip p
    onboard p chart_dir guardrails_dir tenant_id o ip (maps_of merged)
    run p (scale_to (tenant_ns tenant_id) "1")
    run p (rollout_status (tenant_ns tenant_id))
    alb ← resumed_url tenant_id o (uses_controller o)
    store_upsert tenant_id (resumed_fields alb tenant_id item)

  pub resume_from : String → Status → Row → Exec p Row
  unfolding start_tenant
  resume_from tenant_id Status.active item = pure item
  resume_from tenant_id Status.suspended item = start_tenant tenant_id item
  resume_from tenant_id status item =
      raise (onboard_error ("cannot resume from status " <> status_text status))

  pub resume_found : String → Option Row → Exec p Row
  unfolding resume_from not_found
  resume_found tenant_id none = raise (not_found tenant_id)
  resume_found tenant_id (some item) = resume_from tenant_id item.status item

  -- `resume_tenant`
  unfoldable pub resume_tenant : String → Exec p Row
  unfolding resume_found
  resume_tenant tenant_id = do
    tid ← lift (validate_tenant_id (some tenant_id))
    item ← store_get tid
    resume_found tid item

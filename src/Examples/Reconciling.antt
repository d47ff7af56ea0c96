-- ===== src/Examples/Reconciling.antt =====
-- Reconciliations on a platform where every call succeeds.
use saas_ntier_lab.Prelude.{String, ◌≡◌, ◌↔◌, refl, true, false, some, List, [], ◌∷◌}
use saas_ntier_lab.Errors.{ok, err, Error, Kind}
use saas_ntier_lab.Ids.{validate_tenant_id}
use saas_ntier_lab.Store.{Row, Status, Desired, merge}
use saas_ntier_lab.Store
use saas_ntier_lab.Exec.{Exec, store_get, store_upsert, pure, raise}
use saas_ntier_lab.Observe.{Observed, matches_active, as_json}
use saas_ntier_lab.Contract.{validate_active_contract}
use saas_ntier_lab.Contract.Laws.{HasPointers, contract-pass_iff}
use saas_ntier_lab.Reconcile.Quiet.{reconcile_quiet}
use saas_ntier_lab.Reconcile.{Handlers, Report, no_action, plan_action, reconcile_one}
use saas_ntier_lab.Reconcile.Gate.{reconcile_active_gated}
use saas_ntier_lab.Reconcile.Gate.Seen.{IsGated}
use saas_ntier_lab.Reconcile.Sweep.{drifted, sweep_one, reconcile_all}
use saas_ntier_lab.Reconcile.Sweep.Failures.{sweep_replaces_status}
use saas_ntier_lab.Reconcile.Sweep.Ends.{SweepEnds, sweep_ends}
use saas_ntier_lab.Reconcile.Keeps.{IsSafe}
use saas_ntier_lab.Exec.Keeps.{Keeps-pure, Keeps-raise}
use saas_ntier_lab.Examples.Registry.{rows-IsRegistry}
use saas_ntier_lab.Examples.{calm, world, acme, acme-IsTenantId}

abbrev pub up : Observed
up = record {
  namespace = true;
  deploy_ready = true;
  replicas = 2;
  ingress = true;
  service = true;
  network_policy = true;
  resource_quota = true;
  irsa_sa = true;
  secret = some true;
  irsa = some true;
}

-- The namespace is there, without its network policy.
abbrev half : Observed
half = record up { network_policy = false }

contract-pass_iff_example :
    ((validate_active_contract "acme" up acme).ok ≡ true)
    ↔ ((matches_active up ≡ true) × HasPointers acme.owned_by acme)
contract-pass_iff_example = contract-pass_iff "acme" up acme

-- Everything that is observed is `seen`; a provisioning, suspension or deletion ends as `change` does.
abbrev pub handlers : Observed → (String → Exec calm (Unit {0})) → Handlers calm
handlers seen change = record {
  observe = λ k row. pure seen;
  provision_fn = λ k tier. change k;
  suspend_fn = change;
  resume_fn = change;
  delete_fn = change;
  contract_fn = validate_active_contract;
}

abbrev pub succeeds : String → Exec calm (Unit {0})
succeeds k = pure tt

abbrev dependency_error : Error
dependency_error = record { kind = Kind.dependency; message = "tofu output failed" }

abbrev onboarding_error : Error
onboarding_error = record { kind = Kind.onboard_error; message = "helm upgrade failed" }

abbrev fails_with : Error → String → Exec calm (Unit {0})
fails_with e k = raise e

acme_found : Store.get world.table "acme" ≡ some acme
unfolding Store.get
acme_found = refl

as_it_should : (plan_action Desired.active up Status.active).action ≡ no_action
unfolding plan_action matches_active
as_it_should = refl

reconcile_quiet_example : (reconcile_one (handlers up succeeds) "acme" world).1.log ≡ []
reconcile_quiet_example =
    reconcile_quiet (handlers up succeeds) "acme" acme up world acme-IsTenantId acme_found refl
      as_it_should

-- ACTIVE is desired, and the namespace is incomplete: it is provisioned again, and the gate says no.
abbrev gated_acme : Row
gated_acme = record acme {
  status = Status.drift;
  error = some "infra incomplete: network_policy";
  observed_json = some (as_json half);
  version = 5;
  updated_at = "now";
}

abbrev repaired : Report
repaired =
    Report.item gated_acme
      (some "namespace present but not fully ACTIVE (status=ACTIVE); reprovision")

reconciles : (reconcile_one (handlers half succeeds) "acme" world).0 ≡ ok repaired
unfolding reconcile_one validate_tenant_id store_get Store.get store_upsert Store.upsert
    matches_active Store.put validate_active_contract
reconciles = refl

reconcile_active_gated_example :
    IsGated
      (handlers half succeeds)
      "acme"
      gated_acme
      (reconcile_one (handlers half succeeds) "acme" world).1
unfolding Store.get
reconcile_active_gated_example =
    reconcile_active_gated (handlers half succeeds) "acme" world acme repaired acme-IsTenantId refl
      refl reconciles

-- The reconciliation of `acme` whose provisioning fails.
abbrev failed_acme : Row
failed_acme = record acme {
  status = Status.failed;
  error = some "tofu output failed";
  observed_json = some (as_json half);
  version = 5;
  updated_at = "now";
}

abbrev failing : Handlers calm
failing = handlers half (fails_with dependency_error)

raises_dependency : (reconcile_one failing "acme" world).0 ≡ err dependency_error
unfolding reconcile_one validate_tenant_id store_get Store.get store_upsert Store.upsert
    matches_active Store.put
raises_dependency = refl

left_failed : Store.get (reconcile_one failing "acme" world).1.table "acme" ≡ some failed_acme
unfolding reconcile_one validate_tenant_id store_get Store.get store_upsert Store.upsert
    matches_active Store.put
left_failed = refl

sweep_replaces_status_example :
    ((sweep_one failing acme world).0 ≡ ok (drifted "acme" "tofu output failed" false))
    × ((r : Row) × (Store.get (sweep_one failing acme world).1.table "acme" ≡ some r)
        × (r.status ≡ Status.drift)
        × (r.desired_status ≡ Desired.active)
        × (r.error ≡ some "tofu output failed"))
sweep_replaces_status_example =
    sweep_replaces_status failing acme failed_acme world dependency_error acme-IsTenantId
      raises_dependency refl left_failed refl

failing-IsSafe : IsSafe failing
failing-IsSafe = record {
  observe = λ k r. Keeps-pure half;
  provision_fn = λ k tier. Keeps-raise dependency_error;
  suspend_fn = λ k. Keeps-raise dependency_error;
  resume_fn = λ k. Keeps-raise dependency_error;
  delete_fn = λ k. Keeps-raise dependency_error;
}

-- The namespaces of the cluster; no tenant has the second.
abbrev spaces : List String
spaces = "tenant-acme" ∷ "tenant-hooli" ∷ []

sweep_ends_example :
    SweepEnds failing world spaces world (reconcile_all failing (pure spaces) world).0
sweep_ends_example =
    sweep_ends failing failing-IsSafe (pure spaces) world spaces (Keeps-pure spaces) rows-IsRegistry
      refl

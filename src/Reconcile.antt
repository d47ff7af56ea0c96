-- ===== src/Reconcile.antt =====
-- control-plane/reconcile.py: making the observed state of a tenant match its desired status.
-- `reconcile_one` takes the functions that it calls as arguments; so does its model.
pub mod Planning
pub mod Sweep
pub mod Gate
pub mod Quiet
pub mod Keeps
use saas_ntier_lab.Prelude.{
  ℕ, String, Bool, true, false, not, ◌&&◌, ◌||◌, Option, none, some, List, [], ◌∷◌, ◌==◌, ◌<>◌,
  repr, or_else, if◌then◌else◌,
}
use saas_ntier_lab.Errors.{Result, ok, err, Error, Kind, is_control_plane, retryable}
use saas_ntier_lab.Ids.{validate_tenant_id}
use saas_ntier_lab.Store.{Row, Fields, Status, Desired, no_fields, status_text, Table}
use saas_ntier_lab.Store
use saas_ntier_lab.Observe.{Observed, matches_active, matches_suspended, matches_gone, as_json}
use saas_ntier_lab.Contract.{ContractResult}
use saas_ntier_lab.Exec.{
  Platform, World, Exec, ◌>>=◌, ◌>>◌, pure, raise, catch, continue, handle, lift, store_get,
  store_upsert, store_delete,
}

-- `no_action` is the action "none".
pub data Action : Type 0 where
  no_action purge_registry delete suspend provision resume repair : Action

pub record Plan : Type 0 where
  pub action : Action
  pub reason : String

abbrev plan_of : Action → String → Plan
plan_of a why = record { action = a; reason = why }

abbrev pub is_suspended : Status → Bool
is_suspended Status.suspended = true
is_suspended _ = false

unfoldable pub plan_action : Desired → Observed → Status → Plan
plan_action Desired.gone o status =
    if matches_gone o
    then plan_of purge_registry "desired GONE and namespace absent"
    else plan_of delete "desired GONE"
plan_action Desired.suspended o status =
    if matches_suspended o
    then plan_of no_action "already suspended"
    else plan_of suspend "desired SUSPENDED but workload or Ingress still up"
plan_action Desired.active o status =
    if matches_active o
    then plan_of no_action "infrastructure looks active; contract check next"
    else if not o.namespace
    then plan_of provision "desired ACTIVE but namespace missing"
    else if is_suspended status
    then plan_of resume "SUSPENDED namespace present; resume workload"
    else plan_of repair (
        "namespace present but not fully ACTIVE (status="
        <> or_else (some (status_text status)) "unknown"
        <> "); reprovision")
plan_action (Desired.other s) o status = plan_of no_action ("unknown desired " <> s)

-- `item.get("desired_status") or "ACTIVE"`
abbrev pub desired_or_active : Desired → Desired
desired_or_active (Desired.other s) = if s == "" then Desired.active else Desired.other s
desired_or_active d = d

-- What `reconcile_one` returns: the tenant is gone, or its row, with the reason if it is added.
pub data Report : Type 0 where
  gone : String → String → Report
  item : Row → Option String → Report

-- `{"id": tenant_id, "status": "GONE"}`, as a row with no other field.
abbrev pub absent_row : String → Row
absent_row tenant_id = record {
  id = tenant_id;
  desired_status = Desired.other "";
  status = Status.other "GONE";
  tier = none;
  endpoint = none;
  path_prefix = none;
  owned_by = none;
  secret_name = none;
  irsa_role_arn = none;
  error = none;
  delete_step = none;
  observed_json = none;
  version = 0;
  created_at = "";
  updated_at = "";
}

abbrev pub row_or_absent : String → Option Row → Row
row_or_absent tenant_id none = absent_row tenant_id
row_or_absent tenant_id (some r) = r

-- The functions that `reconcile_one` is given, or its defaults. A provisioning takes the tier.
pub record Handlers (p : Platform) : Type 0 where
  pub observe : String → Row → Exec p Observed
  pub provision_fn : String → String → Exec p (Unit {0})
  pub suspend_fn : String → Exec p (Unit {0})
  pub resume_fn : String → Exec p (Unit {0})
  pub delete_fn : String → Exec p (Unit {0})
  pub contract_fn : String → Observed → Row → ContractResult

-- The status that a failed action leaves.
abbrev pub failed_status : Desired → Kind → Status
failed_status Desired.gone kind = Status.delete_failed
failed_status _ kind = if retryable kind then Status.drift else Status.failed

abbrev pub observed_fields : Observed → Status → Option String → Fields
observed_fields o status problem = record no_fields {
  observed_json = some (some (as_json o));
  status = some status;
  error = some problem;
}

abbrev pub gate_fields : Observed → ContractResult → Fields
gate_fields o check =
    if check.ok
    then observed_fields o Status.active none
    else observed_fields o Status.drift (some check.reason)

abbrev pub toward_active : Action → Bool
toward_active provision = true
toward_active repair = true
toward_active resume = true
toward_active _ = false

abbrev pub wants_active : Desired → Bool
wants_active Desired.active = true
wants_active _ = false

module _ {p : Platform} (h : Handlers p) where
  -- Observe, ask the contract, and write ACTIVE or DRIFT.
  pub gate : String → Row → Exec p Row
  gate tenant_id row = do
    o ← h.observe tenant_id row
    store_upsert tenant_id (gate_fields o (h.contract_fn tenant_id o row))

  -- The action "none": the branch is chosen by the desired status.
  pub settle : Desired → String → Observed → Row → String → Exec p Report
  settle Desired.gone tenant_id o row why = do
    _ ← store_delete tenant_id
    pure (Report.gone tenant_id why)
  settle Desired.suspended tenant_id o row why = do
    r ← store_upsert tenant_id (observed_fields o Status.suspended none)
    pure (Report.item r none)
  settle _ tenant_id o row why = do
    r ← store_upsert tenant_id (gate_fields o (h.contract_fn tenant_id o row))
    pure (Report.item r none)

  -- The body of the `try`: the action's function. `some` is what `reconcile_one` returns there.
  pub perform : Action → String → Row → String → Exec p (Option Report)
  perform no_action tenant_id row why = pure none
  perform purge_registry tenant_id row why = pure none
  perform provision tenant_id row why = do
    h.provision_fn tenant_id (or_else row.tier "standard")
    pure none
  perform repair tenant_id row why = do
    h.provision_fn tenant_id (or_else row.tier "standard")
    pure none
  perform suspend tenant_id row why = do h.suspend_fn tenant_id; pure none
  perform resume tenant_id row why = do h.resume_fn tenant_id; pure none
  perform delete tenant_id row why = do
    h.delete_fn tenant_id
    left ← store_get tenant_id
    pure (elim left [ none ↦ some (Report.gone tenant_id why) | some r ↦ none ])

  -- The `except ControlPlaneError`; any other exception passes.
  pub record_failure : {A : Type 0} → Desired → String → Error → Exec p A
  record_failure desired tenant_id e =
      if is_control_plane e.kind
      then (do
        _ ← store_upsert tenant_id (record no_fields {
          desired_status = some desired;
          status = some (failed_status desired e.kind);
          error = some (some e.message);
        })
        raise e)
      else raise e

  -- What follows the `try`. `row` is the stored row, or the bare `{"id", "status": "GONE"}`.
  pub confirm_row : Action → Desired → String → String → Row → Exec p Report
  unfolding gate
  confirm_row a desired tenant_id why row =
      let checked : Exec p Report = (do r ← gate tenant_id row; pure (Report.item r (some why))) in
      if wants_active desired && toward_active a then checked else pure (Report.item row (some why))

  pub confirm : Action → Desired → String → String → Exec p Report
  unfolding confirm_row
  confirm a desired tenant_id why = do
    left ← store_get tenant_id
    confirm_row a desired tenant_id why (row_or_absent tenant_id left)

  pub finish : Action → Desired → String → String → Option Report → Exec p Report
  unfolding confirm
  finish _ desired tenant_id why (some report) = pure report
  finish a desired tenant_id why none = confirm a desired tenant_id why

  pub act : Action → Desired → String → Observed → Row → String → Exec p Report
  unfolding settle perform record_failure finish
  act no_action desired tenant_id o row why = settle desired tenant_id o row why
  act purge_registry desired tenant_id o row why = do
    _ ← store_delete tenant_id
    pure (Report.gone tenant_id why)
  act a desired tenant_id o row why = do
    done ← catch (perform a tenant_id row why) (record_failure desired tenant_id)
    finish a desired tenant_id why done

  pub reconcile_found : String → Option Row → Exec p Report
  unfolding act plan_action
  reconcile_found tenant_id none = raise (record {
    kind = Kind.validation;
    message = "tenant " <> repr tenant_id <> " not in registry";
  })
  reconcile_found tenant_id (some row) = do
    o ← h.observe tenant_id row
    let desired : Desired = desired_or_active row.desired_status
    let decision : Plan = plan_action desired o row.status
    _ ← store_upsert tenant_id (record no_fields { observed_json = some (some (as_json o)) })
    act decision.action desired tenant_id o row decision.reason

  unfoldable pub reconcile_one : String → Exec p Report
  unfolding reconcile_found
  reconcile_one tenant_id = do
    tid ← lift (validate_tenant_id (some tenant_id))
    row ← store_get tid
    reconcile_found tid row

-- ===== src/Lifecycle.antt =====
-- control-plane/lifecycle.py: suspending and deleting a tenant. `drop_role` is `drop_postgres_role`
-- of control-plane/pg_admin.py, which the code calls to revoke the tenant's database role.
-- (`resume_tenant` is in Lifecycle/Resume.)
pub mod Keeps
pub mod Outcome
pub mod Registry
pub mod Removals
pub mod Suspending
pub mod Resume
pub mod Dropping
pub mod Foreign
use saas_ntier_lab.Prelude.{
  ℕ, zero, suc, ◌+◌, ◌*◌, String, Bool, true, false, not, ◌||◌, Option, none, some, List, [], ◌∷◌,
  eqb, ltb, ◌==◌, ◌<>◌, repr, show_nat, if◌then◌else◌,
}
use saas_ntier_lab.Errors.{Result, ok, err, Error, Kind}
use saas_ntier_lab.Ids.{validate_tenant_id}
use saas_ntier_lab.Store.{Row, Fields, Status, Desired, Owner, no_fields, status_text}
use saas_ntier_lab.Exec.{
  Platform, World, Exec, Outputs, ◌>>=◌, ◌>>◌, pure, raise, catch, continue, handle, lift,
  sleep_for, store_get, store_upsert, store_delete, tofu_outputs,
}
use saas_ntier_lab.Shell.{error_of, run, run_ok}
use saas_ntier_lab.AwsIdentity.{delete_tenant_irsa, delete_tenant_secret}

abbrev pub tenant_ns : String → String
tenant_ns tenant_id = "tenant-" <> tenant_id

abbrev pub scale_to : String → String → List String
scale_to ns replicas =
    "kubectl" ∷ "-n" ∷ ns ∷ "scale" ∷ "deploy/test-app" ∷ ("--replicas=" <> replicas) ∷ []

abbrev pub delete_ingress : String → List String
delete_ingress ns =
    "kubectl" ∷ "-n" ∷ ns ∷ "delete" ∷ "ingress" ∷ "test-app" ∷ "--ignore-not-found" ∷ []

abbrev pub helm_uninstall : String → List String
helm_uninstall ns = "helm" ∷ "uninstall" ∷ "test-app" ∷ "-n" ∷ ns ∷ []

abbrev pub get_ns : String → List String
get_ns ns = "kubectl" ∷ "get" ∷ "ns" ∷ ns ∷ []

abbrev pub delete_ns : String → List String
delete_ns ns = "kubectl" ∷ "delete" ∷ "ns" ∷ ns ∷ "--wait=true" ∷ "--timeout=180s" ∷ []

pub not_found : String → Error
not_found tenant_id = error_of Kind.onboard_error ("tenant " <> repr tenant_id <> " not found")

revoke_failed : ℕ → Option Error → Error
revoke_failed attempts none =
    error_of Kind.onboard_error
      ("postgres role revoke failed after " <> show_nat attempts <> " attempts: None")
revoke_failed attempts (some e) =
    error_of Kind.onboard_error
      ("postgres role revoke failed after " <> show_nat attempts <> " attempts: " <> e.message)

-- The keyword arguments of the writes that record a step of the teardown.
abbrev pub step : String → Fields
step done = record no_fields {
  status = some Status.deleting;
  delete_step = some (some done);
  error = some none;
}

abbrev pub delete_started : Fields
delete_started = record (step "started") { desired_status = some Desired.gone }

abbrev pub delete_failed_by : Error → Fields
delete_failed_by e = record no_fields {
  status = some Status.delete_failed;
  desired_status = some Desired.gone;
  error = some (some e.message);
}

-- Of the row that is being deleted, if there is one: who owns the tenant's role and secret, and
-- their names.
pub record Owned : Type 0 where
  pub owned_by : Option Owner
  pub irsa_role_arn : Option String
  pub secret_name : Option String

abbrev pub owned_of : Option Row → Owned
owned_of none = record { owned_by = none; irsa_role_arn = none; secret_name = none }
owned_of (some r) = record {
  owned_by = r.owned_by;
  irsa_role_arn = r.irsa_role_arn;
  secret_name = r.secret_name;
}

-- The keyword arguments of the write of `suspend_tenant`.
abbrev pub suspended_fields : Fields
suspended_fields = record no_fields {
  desired_status = some Desired.suspended;
  status = some Status.suspended;
  error = some none;
}

abbrev pub can_suspend : Status → Bool
can_suspend Status.active = true
can_suspend Status.failed = true
can_suspend Status.drift = true
can_suspend _ = false

module _ (p : Platform) where
  -- The part of `suspend_tenant` behind its guards.
  pub stop_tenant : String → Exec p Row
  unfolding run run_ok
  stop_tenant tenant_id = do
    run p (scale_to (tenant_ns tenant_id) "0")
    _ ← run_ok p (delete_ingress (tenant_ns tenant_id))
    store_upsert tenant_id suspended_fields

  pub suspend_from : String → Status → Row → Exec p Row
  unfolding stop_tenant
  suspend_from tenant_id Status.suspended item = pure item
  suspend_from tenant_id status item =
      if can_suspend status
      then stop_tenant tenant_id
      else raise (error_of Kind.onboard_error ("cannot suspend from status " <> status_text status))

  pub suspend_found : String → Option Row → Exec p Row
  unfolding suspend_from not_found
  suspend_found tenant_id none = raise (not_found tenant_id)
  suspend_found tenant_id (some item) = suspend_from tenant_id item.status item

  unfoldable pub suspend_tenant : String → Exec p Row
  unfolding suspend_found
  suspend_tenant tenant_id = do
    tid ← lift (validate_tenant_id (some tenant_id))
    item ← store_get tid
    suspend_found tid item

  -- `_disable_application_access`
  unfoldable pub disable_application_access : String → Exec p (Unit {0})
  unfolding run_ok
  disable_application_access tenant_id = do
    _ ← run_ok p (scale_to (tenant_ns tenant_id) "0")
    _ ← run_ok p (delete_ingress (tenant_ns tenant_id))
    pure tt

  pub delete_if_live : String → Bool → Exec p (Unit {0})
  unfolding run
  delete_if_live ns true = run p (delete_ns ns)
  delete_if_live ns false = pure tt

  -- `_delete_kubernetes`
  unfoldable pub delete_kubernetes : String → Exec p (Unit {0})
  unfolding run_ok delete_if_live
  delete_kubernetes ns = do
    _ ← run_ok p (helm_uninstall ns)
    live ← run_ok p (get_ns ns)
    delete_if_live ns live

  module _ (drop_role : Outputs → String → Exec p (Unit {0})) where
    -- The rounds of `_revoke_postgres_role` from `i` on, `rounds` of them left of `attempts`.
    pub revoke_rounds :
        (rounds i attempts : ℕ) → Option Error → Outputs → String → Exec p (Unit {0})
    unfolding revoke_failed sleep_for
    revoke_rounds zero i attempts last o tenant_id = raise (revoke_failed attempts last)
    revoke_rounds (suc rounds) i attempts last o tenant_id =
        let wait : Exec p (Unit {0}) =
          if ltb (i + 1) attempts then sleep_for (5 * (i + 1)) else pure tt in
        let again =
          λ (e : Error). wait >> revoke_rounds rounds (i + 1) attempts (some e) o tenant_id in
        catch (drop_role o tenant_id) again

    -- `_revoke_postgres_role`
    unfoldable pub revoke_postgres_role : Outputs → String → Exec p (Unit {0})
    unfolding revoke_rounds
    revoke_postgres_role o tenant_id = revoke_rounds 3 0 3 none o tenant_id

    -- What follows `_delete_kubernetes` for each owner. For a tenant of OpenTofu the code only prints
    -- a note.
    pub remove_identity : Option Owner → Owned → Outputs → String → Exec p (Unit {0})
    unfolding delete_tenant_irsa delete_tenant_secret store_upsert
    remove_identity (some Owner.control_plane) owned o tenant_id = do
      delete_tenant_irsa p o tenant_id owned.irsa_role_arn
      _ ← store_upsert tenant_id (step "iam_deleted")
      delete_tenant_secret p o tenant_id owned.secret_name
      _ ← store_upsert tenant_id (step "secret_deleted")
      pure tt
    remove_identity _ owned o tenant_id = pure tt

    -- The body of the `try` of `delete_tenant`, from the revoked database role on.
    pub remove_rest : Owned → Outputs → String → Exec p (Unit {0})
    unfolding delete_kubernetes remove_identity
    remove_rest owned o tenant_id = do
      _ ← store_upsert tenant_id (step "db_revoked")
      delete_kubernetes (tenant_ns tenant_id)
      _ ← store_upsert tenant_id (step "k8s_deleted")
      remove_identity owned.owned_by owned o tenant_id
      _ ← store_delete tenant_id
      pure tt

    -- The body of the `try` of `delete_tenant`.
    pub teardown : Owned → String → Exec p (Unit {0})
    unfolding disable_application_access revoke_postgres_role remove_rest
    teardown owned tenant_id = do
      disable_application_access tenant_id
      _ ← store_upsert tenant_id (step "access_disabled")
      o ← tofu_outputs
      revoke_postgres_role o tenant_id
      remove_rest owned o tenant_id

    -- The `except` of `delete_tenant`.
    pub fail_delete : String → Error → Exec p (Unit {0})
    fail_delete tenant_id e = do _ ← store_upsert tenant_id (delete_failed_by e); raise e

    unfoldable pub delete_tenant : String → Exec p (Unit {0})
    unfolding teardown fail_delete
    delete_tenant tenant_id = do
      tid ← lift (validate_tenant_id (some tenant_id))
      item ← store_get tid
      _ ← store_upsert tid delete_started
      catch (teardown (owned_of item) tid) (fail_delete tid)

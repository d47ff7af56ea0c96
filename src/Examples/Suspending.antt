-- ===== src/Examples/Suspending.antt =====
-- Suspensions, on a platform where every call succeeds and on one where every command fails.
use saas_ntier_lab.Prelude.{◌+◌, ◌≡◌, refl, []}
use saas_ntier_lab.Errors.{ok, err, Error, Kind}
use saas_ntier_lab.Ids.{validate_tenant_id}
use saas_ntier_lab.Store
use saas_ntier_lab.Store.{Row, Status, Desired}
use saas_ntier_lab.Exec.{Platform, World, Exit, store_get, store_upsert, spawn}
use saas_ntier_lab.Shell.{run_error}
use saas_ntier_lab.Lifecycle.{suspend_tenant}
use saas_ntier_lab.Lifecycle.Suspending.{suspend_tenant_rolls_back}
use saas_ntier_lab.Examples.{calm, world, acme, rows, acme-IsTenantId}

abbrev suspended_acme : Row
suspended_acme = record acme {
  desired_status = Desired.suspended;
  status = Status.suspended;
  version = 4;
  updated_at = "now";
}

suspends : (suspend_tenant calm "acme" world).0 ≡ ok suspended_acme
unfolding suspend_tenant validate_tenant_id store_get Store.get Store.upsert store_upsert spawn
    run_error
suspends = refl

abbrev broken : Platform
broken = record calm { subprocess = λ cmd x. (Exit.exited 1, x + 1) }

abbrev before : World broken
before = record { table = rows; ext = 0; log = [] }

abbrev scale_failed : Error
scale_failed = record {
  kind = Kind.permanent;
  message = "kubectl -n tenant-acme scale deploy/test-app --replicas=0 exited 1";
}

raises : (suspend_tenant broken "acme" before).0 ≡ err scale_failed
unfolding suspend_tenant validate_tenant_id store_get Store.get spawn run_error
raises = refl

suspend_tenant_rolls_back_example : (suspend_tenant broken "acme" before).1.table ≡ rows
suspend_tenant_rolls_back_example =
    suspend_tenant_rolls_back "acme" before scale_failed acme-IsTenantId raises

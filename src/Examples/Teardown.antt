-- ===== src/Examples/Teardown.antt =====
-- Deletions on a platform where every call succeeds, with a database that drops the role and one
-- that refuses to.
use saas_ntier_lab.Prelude.{String, ◌≡◌, refl, show_nat}
use saas_ntier_lab.Errors.{ok, err, Error, Kind}
use saas_ntier_lab.Store
use saas_ntier_lab.Exec.{Exec, Outputs, store_get, store_delete, spawn, tofu_outputs}
use saas_ntier_lab.Ids.{validate_tenant_id}
use saas_ntier_lab.Safety.{secret_recovery_window_days}
use saas_ntier_lab.Shell.{run_error}
use saas_ntier_lab.Lifecycle.{delete_tenant}
use saas_ntier_lab.Examples.{calm, world}

abbrev refusal : Error
refusal = record { kind = Kind.onboard_error; message = "drop-role job failed" }

abbrev refuses : Outputs → String → Exec calm (Unit {0})
refuses o k w = (err refusal, w)

abbrev drops : Outputs → String → Exec calm (Unit {0})
drops o k w = (ok tt, w)

abbrev gave_up : Error
gave_up = record {
  kind = Kind.onboard_error;
  message = "postgres role revoke failed after 3 attempts: drop-role job failed";
}

raises_gave_up : (delete_tenant calm refuses "acme" world).0 ≡ err gave_up
unfolding delete_tenant validate_tenant_id store_get Store.upsert spawn Store.put tofu_outputs
    show_nat
raises_gave_up = refl

returns : (delete_tenant calm drops "acme" world).0 ≡ ok tt
unfolding delete_tenant validate_tenant_id store_get Store.upsert spawn Store.put tofu_outputs
    run_error secret_recovery_window_days store_delete
returns = refl

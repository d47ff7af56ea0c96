-- ===== src/Reconcile/Sweep/Failures.antt =====
-- What the sweep of control-plane/reconcile.py does when a tenant's reconciliation raises.
use saas_ntier_lab.Prelude.{String, ◌≡◌, refl, true, not, some, arith, if◌then◌else◌}
use saas_ntier_lab.Errors.{ok, err, Error, is_control_plane, retryable}
use saas_ntier_lab.Ids.Grammar.{IsTenantId}
use saas_ntier_lab.Store
use saas_ntier_lab.Store.{Row, Fields, Status, Desired, is_desired, merge, fresh}
use saas_ntier_lab.Store.Versions.{stored}
use saas_ntier_lab.Exec.{Platform, World}
use saas_ntier_lab.Exec.Ends.{upsert-keeps}
use saas_ntier_lab.Reconcile.{Handlers, reconcile_one}
use saas_ntier_lab.Reconcile.Sweep.{drifted, swept_fields, sweep_failure, sweep_one}

swept_columns :
    (now k : String) (row : Row) (e : Error) (old r : Row)
    → r ≡ stored now k (swept_fields row e) (some old)
    → (r.status ≡ (if not (retryable e.kind) then Status.drift else row.status))
      × (r.desired_status ≡ old.desired_status)
      × (r.error ≡ some e.message)
unfolding merge
swept_columns now k row e old r h = ground arith

module _ {p : Platform} (h : Handlers p) where
  -- Take a tenant with a valid id whose reconciliation raises a ControlPlaneError, and leaves a row
  -- with one of the three desired statuses. Whatever status reconciling has written there, the sweep
  -- replaces it, by DRIFT if the error is not retryable, and by the status of the row that was listed
  -- before if it is. The desired status stays, the error is recorded, and the sweep goes on.
  pub sweep_replaces_status :
      (row old : Row) (w : World p) (e : Error)
      → IsTenantId row.id
      → (reconcile_one h row.id w).0 ≡ err e
      → is_control_plane e.kind ≡ true
      → Store.get (reconcile_one h row.id w).1.table row.id ≡ some old
      → is_desired old.desired_status ≡ true
      → ((sweep_one h row w).0 ≡ ok (drifted row.id e.message (retryable e.kind)))
        × ((r : Row) × (Store.get (sweep_one h row w).1.table row.id ≡ some r)
            × (r.status ≡ (if not (retryable e.kind) then Status.drift else row.status))
            × (r.desired_status ≡ old.desired_status)
            × (r.error ≡ some e.message))
  unfolding sweep_one sweep_failure
  sweep_replaces_status row old w e v raised cp found d =
      let w' = (reconcile_one h row.id w).1 in
      let (r, accepted, is, now_found) =
        upsert-keeps row.id (swept_fields row e) old w' v refl found d in
      let (a, b, c) = swept_columns (p.utcnow w'.ext).0 row.id row e old r is in
      rw raised (rw cp (rw accepted (refl, (r, now_found, a, b, c))))

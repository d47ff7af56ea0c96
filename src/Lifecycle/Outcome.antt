-- ===== src/Lifecycle/Outcome.antt =====
-- How a deletion of control-plane/lifecycle.py ends.
use mathlib.Core.Path.{subst}
use saas_ntier_lab.Prelude.{String, ◌≡◌, refl, Option, none, some, arith}
use saas_ntier_lab.Errors.{Result, ok, err, Error}
use saas_ntier_lab.Ids.Grammar.{IsTenantId, validate_of_IsTenantId}
use saas_ntier_lab.Store
use saas_ntier_lab.Store.{Row, Fields, Status, Desired, Table, merge, fresh}
use saas_ntier_lab.Store.Versions.{stored}
use saas_ntier_lab.Exec.{
  Platform, World, Exec, Outputs, handle, catch, store_get, store_upsert, tofu_outputs,
}
use saas_ntier_lab.Exec.Ends.{
  Fails, Fails-rest, Fails-raise, Achieves, Achieves-rest, Achieves-catch, delete-Achieves,
  upsert-stores,
}
use saas_ntier_lab.Lifecycle.{
  delete_tenant, teardown, remove_rest, remove_identity, delete_kubernetes, revoke_postgres_role,
  disable_application_access, tenant_ns, Owned, owned_of, fail_delete, delete_started,
  delete_failed_by, step,
}

-- The tenant's row says that its deletion failed, and by what.
pub record IsRecorded (k : String) (e : Error) (t : Table) : Type 0 where
  pub row : Row
  pub found : Store.get t k ≡ some row
  pub status : row.status ≡ Status.delete_failed
  pub desired : row.desired_status ≡ Desired.gone
  pub error : row.error ≡ some e.message

failed_row :
    (now k : String) (e : Error) (o : Option Row) (r : Row)
    → r ≡ stored now k (delete_failed_by e) o
    → (r.status ≡ Status.delete_failed)
      × (r.desired_status ≡ Desired.gone)
      × (r.error ≡ some e.message)
unfolding fresh merge
failed_row now k e none r h = ground arith
failed_row now k e (some old) r h = ground arith

module _ {p : Platform} (drop_role : Outputs → String → Exec p (Unit {0})) where
  fail_delete_lem :
      (k : String) (e : Error) (w : World p)
      → IsTenantId k
      → ((fail_delete p drop_role k e w).0 ≡ err e)
        × IsRecorded k e (fail_delete p drop_role k e w).1.table
  unfolding fail_delete
  fail_delete_lem k e w v =
      let (r, accepted, is, found) =
        upsert-stores k (delete_failed_by e) Desired.gone w v refl refl in
      let (s, d, m) = failed_row _ k e _ r is in
      rw accepted (refl, record { row = r; found = found; status = s; desired = d; error = m })

  caught :
      (k : String) (r : Result (Unit {0})) (e : Error) (w : World p)
      → IsTenantId k
      → (handle r (fail_delete p drop_role k) w).0 ≡ err e
      → IsRecorded k e (handle r (fail_delete p drop_role k) w).1.table
  caught k (ok a) e w v h = cc
  caught k (err e') e w v h =
      let (raised, recorded) = fail_delete_lem k e' w v in
      let same : e' ≡ e = cc in
      subst (λ x. IsRecorded k x (fail_delete p drop_role k e' w).1.table) same recorded

  -- The deletion of a valid tenant id comes to its `try`.
  pub delete_tenant_try :
      (k : String) (w : World p)
      → IsTenantId k
      → delete_tenant p drop_role k w
        ≡ catch
            (teardown p drop_role (owned_of (Store.get w.table k)) k)
            (fail_delete p drop_role k)
            (store_upsert k delete_started w).1
  unfolding delete_tenant store_get
  delete_tenant_try k w v =
      let (r, accepted, is, found) = upsert-stores k delete_started Desired.gone w v refl refl in
      rw (validate_of_IsTenantId k v) (rw accepted)

  -- Whatever makes the deletion of a valid tenant id raise, its row is there afterwards, with the
  -- status DELETE_FAILED, the desired status GONE and the text of that error.
  pub delete_tenant_records :
      (k : String) (e : Error) (w : World p)
      → IsTenantId k
      → (delete_tenant p drop_role k w).0 ≡ err e
      → IsRecorded k e (delete_tenant p drop_role k w).1.table
  delete_tenant_records k e w v h =
      let run =
        teardown p drop_role (owned_of (Store.get w.table k)) k
          (store_upsert k delete_started w).1 in
      let t = delete_tenant_try k w v in rw t (caught k run.0 e run.1 v (rw t at h))

  pub fail_delete-Fails : (k : String) (e : Error) → Fails (fail_delete p drop_role k e)
  unfolding fail_delete
  fail_delete-Fails k e = Fails-rest (store_upsert k (delete_failed_by e)) _ (λ _. Fails-raise e)

  rest-Achieves :
      (owned : Owned) (o : Outputs) (k : String)
      → Achieves (λ w. Store.get w.table k ≡ none) (remove_rest p drop_role owned o k)
  unfolding remove_rest
  rest-Achieves owned o k = Achieves-rest (store_upsert k (step "db_revoked")) _ (λ _.
      Achieves-rest (delete_kubernetes p (tenant_ns k)) _ (λ _.
        Achieves-rest (store_upsert k (step "k8s_deleted")) _ (λ _.
          Achieves-rest (remove_identity p drop_role owned.owned_by owned o k) _
            (λ _. delete-Achieves k))))

  teardown-Achieves :
      (owned : Owned) (k : String)
      → Achieves (λ w. Store.get w.table k ≡ none) (teardown p drop_role owned k)
  unfolding teardown
  teardown-Achieves owned k = Achieves-rest (disable_application_access p k) _ (λ _.
      Achieves-rest (store_upsert k (step "access_disabled")) _ (λ _.
        Achieves-rest tofu_outputs _ (λ o.
          Achieves-rest (revoke_postgres_role p drop_role o k) _ (λ _. rest-Achieves owned o k))))

  -- When the deletion of a valid tenant id returns, there is no row of the tenant.
  pub delete_tenant_purges :
      (k : String) (w : World p)
      → IsTenantId k
      → (delete_tenant p drop_role k w).0 ≡ ok tt
      → Store.get (delete_tenant p drop_role k w).1.table k ≡ none
  delete_tenant_purges k w v h =
      let t = delete_tenant_try k w v in
      let owned = owned_of (Store.get w.table k) in
      rw t (
        (Achieves-catch (teardown p drop_role owned k) (fail_delete p drop_role k)
            (teardown-Achieves owned k) (fail_delete-Fails k)).at
          (store_upsert k delete_started w).1 tt (rw t at h))

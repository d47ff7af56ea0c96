-- ===== src/Provision/Outcome.antt =====
-- How a provisioning of control-plane/provisioner.py fails.
use mathlib.Core.Path.{subst}
use saas_ntier_lab.Prelude.{
  String, ◌≡◌, refl, true, Option, none, some, arith, Bool-cases, inl, inr,
}
use saas_ntier_lab.Errors.{Result, ok, err, Error, is_control_plane}
use saas_ntier_lab.Ids.Grammar.{IsTenantId, validate_of_IsTenantId}
use saas_ntier_lab.Store
use saas_ntier_lab.Store.{Row, Fields, Status, Desired, Owner, Table, merge, fresh}
use saas_ntier_lab.Store.Versions.{stored}
use saas_ntier_lab.Exec.{Platform, World, handle, catch, continue, ◌>>=◌, pure, store_upsert}
use saas_ntier_lab.Exec.Ends.{Fails, Fails-rest, Fails-raise, upsert-stores}
use saas_ntier_lab.Provision.{
  Order, provisioning_fields, failed_fields, as_control_plane, provision, provision_body,
  fail_provision,
}

-- The tenant's row says that its provisioning failed, and by what.
pub record IsFailed (k : String) (e : Error) (t : Table) : Type 0 where
  pub row : Row
  pub found : Store.get t k ≡ some row
  pub status : row.status ≡ Status.failed
  pub desired : row.desired_status ≡ Desired.active
  pub error : row.error ≡ some e.message

failed_row :
    (now k tier : String) (e : Error) (o : Option Row) (r : Row)
    → r ≡ stored now k (failed_fields tier e) o
    → (r.status ≡ Status.failed) × (r.desired_status ≡ Desired.active) × (r.error ≡ some e.message)
unfolding fresh merge
failed_row now k tier e none r h = ground arith
failed_row now k tier e (some old) r h = ground arith

as_control_plane_lem :
    (e : Error)
    → (is_control_plane (as_control_plane e).kind ≡ true)
      × ((as_control_plane e).message ≡ e.message)
as_control_plane_lem e = elim (Bool-cases (is_control_plane e.kind)) [
  | inl t ↦ rw t (t, refl)
  | inr f ↦ rw f (refl, refl)
]

module _ (p : Platform) (chart_dir guardrails_dir tofu_dir : String) where
  fail_provision_lem :
      (k tier : String) (e : Error) (w : World p)
      → IsTenantId k
      → ((fail_provision p chart_dir guardrails_dir tofu_dir tier k e w).0
          ≡ err (as_control_plane e))
        × IsFailed k
            (as_control_plane e)
            (fail_provision p chart_dir guardrails_dir tofu_dir tier k e w).1.table
  unfolding fail_provision
  fail_provision_lem k tier e w v =
      let (r, accepted, is, found) =
        upsert-stores k (failed_fields tier e) Desired.active w v refl refl in
      let (s, d, m) = failed_row _ k tier e _ r is in
      let (c, text) = as_control_plane_lem e in
      rw accepted
        (refl, record { row = r; found = found; status = s; desired = d; error = rw text m })

  pub fail_provision-Fails :
      (k tier : String) (e : Error)
      → Fails (fail_provision p chart_dir guardrails_dir tofu_dir tier k e)
  unfolding fail_provision
  fail_provision-Fails k tier e =
      Fails-rest (store_upsert k (failed_fields tier e)) _ (λ _. Fails-raise _)

  caught :
      (k tier : String) (r : Result Row) (e : Error) (w : World p)
      → IsTenantId k
      → (handle r (fail_provision p chart_dir guardrails_dir tofu_dir tier k) w).0 ≡ err e
      → (is_control_plane e.kind ≡ true)
        × IsFailed k e
            (handle r (fail_provision p chart_dir guardrails_dir tofu_dir tier k) w).1.table
  caught k tier (ok a) e w v h = cc
  caught k tier (err e') e w v h =
      let (raised, recorded) = fail_provision_lem k tier e' w v in
      let same : as_control_plane e' ≡ e = cc in
      subst
        (λ x.
          (is_control_plane x.kind ≡ true)
          × IsFailed k x (fail_provision p chart_dir guardrails_dir tofu_dir tier k e' w).1.table)
        same ((as_control_plane_lem e').0, recorded)

  -- The provisioning of a valid tenant id comes to its `try`.
  pub provision_try :
      (k : String) (order : Order) (w : World p)
      → IsTenantId k
      → provision p chart_dir guardrails_dir tofu_dir k order w
        ≡ (catch
                (provision_body p chart_dir guardrails_dir tofu_dir order k)
                (fail_provision p chart_dir guardrails_dir tofu_dir order.tier k)
              >>= λ _. pure tt)
            (store_upsert k (provisioning_fields order.tier) w).1
  unfolding provision
  provision_try k order w v =
      let (r, accepted, is, found) =
        upsert-stores k (provisioning_fields order.tier) Desired.active w v refl refl in
      rw (validate_of_IsTenantId k v) (rw accepted refl)

  ignored :
      (r : Result Row) (w : World p) (e : Error)
      → (continue {p = p} r (λ _. pure (tt {0})) w).0 ≡ err e
      → (r ≡ err e) × ((continue {p = p} r (λ _. pure (tt {0})) w).1 ≡ w)
  ignored (ok a) w e h = cc
  ignored (err e') w e h = (cc, refl)

  -- Whatever makes the provisioning of a valid tenant id raise, what it raises is a ControlPlaneError, and
  -- the tenant's row is there, with the status FAILED, the desired status ACTIVE and the text of that
  -- error.
  pub provision_records :
      (k : String) (order : Order) (e : Error) (w : World p)
      → IsTenantId k
      → (provision p chart_dir guardrails_dir tofu_dir k order w).0 ≡ err e
      → (is_control_plane e.kind ≡ true)
        × IsFailed k e (provision p chart_dir guardrails_dir tofu_dir k order w).1.table
  provision_records k order e w v h =
      let body =
        provision_body p chart_dir guardrails_dir tofu_dir order k
          (store_upsert k (provisioning_fields order.tier) w).1 in
      let end =
        handle body.0 (fail_provision p chart_dir guardrails_dir tofu_dir order.tier k) body.1 in
      let t = provision_try k order w v in
      let (raised, same) = ignored end.0 end.1 e (rw t at h) in
      rw t (rw same (caught k order.tier body.0 e body.1 v raised))

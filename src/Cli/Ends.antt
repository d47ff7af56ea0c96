-- ===== src/Cli/Ends.antt =====
-- How `create` and `delete` of control-plane/cli.py end.
use saas_ntier_lab.Prelude.{
  String, ◌∙◌, ◌≡◌, refl, Bool, true, false, none, some, ◌⊎◌, inl, inr, Bool-cases,
}
use saas_ntier_lab.Errors.{Result, ok, err, Error, Result-cases, is_control_plane}
use saas_ntier_lab.Ids.Grammar.{IsTenantId, validate_of_IsTenantId}
use saas_ntier_lab.Store
use saas_ntier_lab.Store.{Row, Status, Desired}
use saas_ntier_lab.Exec.{Platform, World, Exec, ◌>>◌, catch, pure, store_get}
use saas_ntier_lab.Provision.{provision}
use saas_ntier_lab.Provision.Outcome.{provision_records}
use saas_ntier_lab.Provision.Active.{provision_returns}
use saas_ntier_lab.Lifecycle.Outcome.{IsRecorded, delete_tenant_records, delete_tenant_purges}
use saas_ntier_lab.Lifecycle.Dropping.{WasDropped, delete_tenant_drops}
use saas_ntier_lab.ControlPlane.{Setup, deleting, drop_role}
use saas_ntier_lab.Cli.{
  Command, Ended, ends, Shown, with_id, stopped, run_create, run_delete, run, order_of,
}

-- The command has ended with the code 0 and the tenant's row, which says ACTIVE.
pub record IsCreated {p : Platform} (k : String) (r : Result Ended) (w : World p) : Type 0 where
  pub row : Row
  pub ended : r ≡ ok (ends 0 (Shown.row row))
  pub found : Store.get w.table k ≡ some row
  pub status : row.status ≡ Status.active
  pub error : row.error ≡ none

-- It has ended with the code 1 and the tenant's row, which says FAILED and why.
pub record IsNotCreated {p : Platform} (k : String) (r : Result Ended) (w : World p) : Type 0 where
  pub row : Row
  pub reason : String
  pub ended : r ≡ ok (ends 1 (Shown.row row))
  pub found : Store.get w.table k ≡ some row
  pub status : row.status ≡ Status.failed
  pub error : row.error ≡ some reason

-- Deleting has ended with the code 0: `kubectl` has reported a completed job of the tenant, which drops
-- its database role, and there is no row of the tenant.
pub record IsDeleted (p : Platform) (s : Setup) (k : String) (r : Result Ended) (w : World p)
    : Type 0 where
  pub ended : r ≡ ok (ends 0 (Shown.gone k))
  pub absent : Store.get w.table k ≡ none
  pub dropped : WasDropped p s.conditions s.tmp_dir k

-- It has ended with the code 1 and the tenant's row, which says DELETE_FAILED and why.
pub record IsNotDeleted {p : Platform} (k : String) (r : Result Ended) (w : World p) : Type 0 where
  pub row : Row
  pub reason : Error
  pub ended : r ≡ ok (ends 1 (Shown.row row))
  pub found : Store.get w.table k ≡ some row
  pub status : row.status ≡ Status.delete_failed
  pub desired : row.desired_status ≡ Desired.gone
  pub error : row.error ≡ some reason.message

-- An exception that is no ControlPlaneError has left the command; the row says DELETE_FAILED.
pub record IsEscaped {p : Platform} (k : String) (r : Result Ended) (w : World p) : Type 0 where
  pub reason : Error
  pub ended : r ≡ err reason
  pub other : is_control_plane reason.kind ≡ false
  pub recorded : IsRecorded k reason w.table

unfoldable pub DeleteEnds : (p : Platform) → Setup → String → Result Ended × World p → Type 0
DeleteEnds p s k (r, w) = IsDeleted p s k r w ⊎ (IsNotDeleted k r w ⊎ IsEscaped k r w)

unfoldable pub CreateEnds : {p : Platform} → String → Result Ended × World p → Type 0
CreateEnds k (r, w) = IsCreated k r w ⊎ IsNotCreated k r w

module _ (p : Platform) (s : Setup) where
  -- What `create` and `delete` make of a procedure that returns, or raises a ControlPlaneError.
  returned_lem :
      (m : Exec p (Unit {0})) (f : Exec p Ended) (h : Error → Exec p Ended) (w : World p)
      (x : Ended)
      → (m w).0 ≡ ok tt
      → f (m w).1 ≡ (ok x, (m w).1)
      → catch (m >> f) h w ≡ (ok x, (m w).1)
  returned_lem m f h w x returned shown = rw returned (rw shown refl)

  raised_lem :
      (m : Exec p (Unit {0})) (f : Exec p Ended) (h : Error → Exec p Ended) (w : World p)
      (e : Error)
      → (m w).0 ≡ err e
      → catch (m >> f) h w ≡ h e (m w).1
  raised_lem m f h w e raised = rw raised refl

  stopped_lem :
      (k : String) (other : Shown) (e : Error) (row : Row) (w : World p)
      → is_control_plane e.kind ≡ true
      → Store.get w.table k ≡ some row
      → stopped p s k other e w ≡ (ok (ends 1 (Shown.row row)), w)
  unfolding stopped store_get
  stopped_lem k other e row w cp found = rw cp (rw found refl)

  create_lem :
      (k tier : String) (infra : Bool) (w : World p)
      → IsTenantId k
      → CreateEnds k (run_create p s tier infra k w)
  unfolding CreateEnds store_get
  create_lem k tier infra w v =
      let m = provision p s.chart_dir s.guardrails_dir s.tofu_dir k (order_of p s tier infra) in
      elim (Result-cases (m w).0) [
        | inl (a, h) ↦
            let done =
              provision_returns p s.chart_dir s.guardrails_dir s.tofu_dir k
                (order_of p s tier infra) w v h in
            let end : run_create p s tier infra k w ≡ (ok (ends 0 (Shown.row done.row)), (m w).1) =
              unfold run_create in returned_lem m _ _ w _ h (rw (done.found) refl) in
            inl (
              rw end (record {
                row = done.row;
                ended = refl;
                found = done.found;
                status = done.status;
                error = done.error;
              }))
        | inr (e, h) ↦
            let (cp, done) =
              provision_records p s.chart_dir s.guardrails_dir s.tofu_dir k
                (order_of p s tier infra) e w v h in
            let end : run_create p s tier infra k w ≡ (ok (ends 1 (Shown.row done.row)), (m w).1) =
              unfold run_create in
              raised_lem m _ _ w e h ∙ stopped_lem k _ e done.row (m w).1 cp done.found in
            inr (
              rw end (record {
                row = done.row;
                reason = e.message;
                ended = refl;
                found = done.found;
                status = done.status;
                error = done.error;
              }))
      ]

  passed_lem :
      (k : String) (other : Shown) (e : Error) (w : World p)
      → is_control_plane e.kind ≡ false
      → stopped p s k other e w ≡ (err e, w)
  unfolding stopped
  passed_lem k other e w cp = rw cp refl

  delete_lem : (k : String) (w : World p) → IsTenantId k → DeleteEnds p s k (run_delete p s k w)
  unfolding DeleteEnds run_delete deleting
  delete_lem k w v =
      let m = deleting p s k in
      elim (Result-cases (m w).0) [
        | inl (a, h) ↦
            let end =
              returned_lem m (pure (ends 0 (Shown.gone k)))
                (λ e. stopped p s k (Shown.not_deleted k e.message) e) w _ h refl in
            inl (
              rw end (record {
                ended = refl;
                absent = delete_tenant_purges (drop_role p s) k w v h;
                dropped = delete_tenant_drops p s.conditions s.tmp_dir k w v h;
              }))
        | inr (e, h) ↦
            let done = delete_tenant_records (drop_role p s) k e w v h in
            let end =
              raised_lem m (pure (ends 0 (Shown.gone k)))
                (λ e. stopped p s k (Shown.not_deleted k e.message) e) w e h in
            elim (Bool-cases (is_control_plane e.kind)) [
              | inl t ↦
                  let all = end ∙ stopped_lem k _ e done.row (m w).1 t done.found in
                  inr (
                    inl (
                      rw all (record {
                        row = done.row;
                        reason = e;
                        ended = refl;
                        found = done.found;
                        status = done.status;
                        desired = done.desired;
                        error = done.error;
                      })))
              | inr n ↦
                  let all = end ∙ passed_lem k (Shown.not_deleted k e.message) e (m w).1 n in
                  inr
                    (inr (rw all (record { reason = e; ended = refl; other = n; recorded = done })))
            ]
      ]

  -- Creating a valid tenant id always ends in one of two ways, whatever fails: with the exit code
  -- 0 and the tenant's row, which is the one in the registry and says ACTIVE without an error, or
  -- with the exit code 1 and the tenant's row, which is the one in the registry and says FAILED
  -- with an error's text. No exception leaves the command.
  pub create_ends :
      (k tier : String) (infra : Bool) (w : World p)
      → IsTenantId k
      → CreateEnds k (run p s (Command.create k tier infra) w)
  unfolding run with_id
  create_ends k tier infra w v = rw (validate_of_IsTenantId k v) (create_lem k tier infra w v)

  -- Deleting a valid tenant id ends in one of three ways: with the exit code 0, and then `kubectl`
  -- has reported a completed job made to drop its database role and the registry has no row of it;
  -- with the exit code 1 and its row, which says DELETE_FAILED with an error's text; or with an
  -- exception that is no ControlPlaneError, and then its row says DELETE_FAILED with that
  -- exception's text, but nothing is printed.
  pub delete_ends :
      (k : String) (w : World p) → IsTenantId k → DeleteEnds p s k (run p s (Command.delete k) w)
  unfolding run with_id
  delete_ends k w v = rw (validate_of_IsTenantId k v) (delete_lem k w v)

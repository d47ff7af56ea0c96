-- ===== src/ControlPlane/Jobs/Ends.antt =====
-- How the jobs of control-plane/app.py end.
use saas_ntier_lab.Prelude.{String, ◌≡◌, refl, false, Option, none, some, arith, ◌⊎◌, inl, inr}
use saas_ntier_lab.Errors.{Result, ok, err, Error, Result-cases, is_control_plane}
use saas_ntier_lab.Ids.Grammar.{IsTenantId}
use saas_ntier_lab.Store
use saas_ntier_lab.Store.{Row, Status, Desired, Table, merge, fresh}
use saas_ntier_lab.Store.Versions.{stored}
use saas_ntier_lab.Exec.{Platform, World, Exec, catch, store_get}
use saas_ntier_lab.Exec.Ends.{upsert-stores}
use saas_ntier_lab.Lifecycle.{delete_failed_by}
use saas_ntier_lab.Lifecycle.Outcome.{IsRecorded, delete_tenant_records, delete_tenant_purges}
use saas_ntier_lab.App.{Job}
use saas_ntier_lab.ControlPlane.{Setup, deleting, drop_role}
use saas_ntier_lab.ControlPlane.Jobs.{run_job, delete_job, note_failed, delete_failed}

module _ (p : Platform) (s : Setup) where
  failed_row :
      (now k : String) (e : Error) (o : Option Row) (r : Row)
      → r ≡ stored now k (delete_failed_by e) o
      → (r.status ≡ Status.delete_failed)
        × (r.desired_status ≡ Desired.gone)
        × (r.error ≡ some e.message)
  unfolding fresh merge
  failed_row now k e none r h = ground arith
  failed_row now k e (some old) r h = ground arith

  note_lem :
      (k : String) (e : Error) (row : Row) (w : World p)
      → IsTenantId k
      → Store.get w.table k ≡ some row
      → ((delete_failed p s k e w).0 ≡ ok tt) × IsRecorded k e (delete_failed p s k e w).1.table
  unfolding delete_failed store_get note_failed
  note_lem k e row w v found =
      let (r, accepted, is, stored_in) =
        upsert-stores k (delete_failed_by e) Desired.gone w v refl refl in
      let (a, b, c) = failed_row _ k e _ r is in
      rw found (
        rw accepted
          (refl, record { row = r; found = stored_in; status = a; desired = b; error = c }))

  caught_ok :
      (m : Exec p (Unit {0})) (h : Error → Exec p (Unit {0})) (w : World p) (a : Unit {0})
      → (m w).0 ≡ ok a
      → catch m h w ≡ (ok a, (m w).1)
  caught_ok m h w a q = rw q refl

  caught_err :
      (m : Exec p (Unit {0})) (h : Error → Exec p (Unit {0})) (w : World p) (e : Error)
      → (m w).0 ≡ err e
      → catch m h w ≡ h e (m w).1
  caught_err m h w e q = rw q refl

  -- There is no row of the tenant, or it says DELETE_FAILED.
  abbrev pub IsSettled : String → Table → Type 0
  IsSettled k t = (Store.get t k ≡ none) ⊎ ((e : Error) × IsRecorded k e t)

  -- The job that deletes a valid tenant id never raises, whatever fails. Afterwards the registry
  -- has no row of the tenant, or one that says DELETE_FAILED, with the desired status GONE and an
  -- error's text: none is left DELETING.
  pub delete_job_settles :
      (k : String) (w : World p)
      → IsTenantId k
      → ((run_job p s k Job.deleting w).0 ≡ ok tt)
        × IsSettled k (run_job p s k Job.deleting w).1.table
  unfolding run_job delete_job deleting
  delete_job_settles k w v =
      let m = deleting p s k in
      elim (Result-cases (m w).0) [
        | inl (a, h) ↦
            rw (caught_ok m (delete_failed p s k) w a h)
              (refl, inl (delete_tenant_purges (drop_role p s) k w v h))
        | inr (e, h) ↦
            let done = delete_tenant_records (drop_role p s) k e w v h in
            let (fine, recorded) = note_lem k e done.row (m w).1 v done.found in
            rw (caught_err m (delete_failed p s k) w e h) (fine, inr (e, recorded))
      ]

  -- The tenant's row says so, with such an error.
  pub record HasRow (k : String) (status : Status) (desired : Desired) (t : Table) : Type 0 where
    pub row : Row
    pub found : Store.get t k ≡ some row
    pub status_is : row.status ≡ status
    pub desired_is : row.desired_status ≡ desired

  -- A job that resumes has ended: with an ACTIVE row, with a FAILED one, or by an exception that is no
  -- ControlPlaneError and has left the table as it was.
  unfoldable pub ResumeEnds : String → Table → Result (Unit {0}) × World p → Type 0
  ResumeEnds k before (r, w) =
      ((r ≡ ok tt)
        × ((row : Row) × (Store.get w.table k ≡ some row) × (row.status ≡ Status.active)))
      ⊎ (((r ≡ ok tt) × HasRow k Status.failed Desired.active w.table)
          ⊎ ((e : Error) × (r ≡ err e) × (is_control_plane e.kind ≡ false) × (w.table ≡ before)))

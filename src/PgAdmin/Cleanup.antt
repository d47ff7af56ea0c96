-- ===== src/PgAdmin/Cleanup.antt =====
-- What the `finally` of `drop_postgres_role` of control-plane/pg_admin.py leaves behind.
use saas_ntier_lab.Prelude.{String, ◌≡◌, List, [], ◌∷◌, ◌++◌}
use saas_ntier_lab.Errors.{Result, err, Error}
use saas_ntier_lab.Exec.{Call, command}
use saas_ntier_lab.PgAdmin.{delete_job, delete_cm}

-- What the calls of a procedure that has ended so end with: the two deletions, or only the first, if it
-- could not be run.
pub data EndsCleaned (ns job cm : String) (r : Result (Unit {0})) (log : List Call) : Type 0 where
  both :
      (l : List Call)
      → log ≡ l ++ command (delete_job ns job) ∷ command (delete_cm ns cm) ∷ []
      → EndsCleaned ns job cm r log
  broken_off :
      (l : List Call) (e : Error)
      → r ≡ err e
      → log ≡ l ++ command (delete_job ns job) ∷ []
      → EndsCleaned ns job cm r log

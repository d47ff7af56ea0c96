-- ===== src/ControlPlane/Jobs/Turns.antt =====
-- The server of control-plane/app.py from request to request and from job to job.
use saas_ntier_lab.Prelude.{String, Option, none, some}
use saas_ntier_lab.Errors.{Error}
use saas_ntier_lab.Store.{Row}
use saas_ntier_lab.Store.Invariant.{IsRegistry}
use saas_ntier_lab.Exec.{Platform}
use saas_ntier_lab.Exec.Keeps.{Keeps, Registered, registered_rules}
use saas_ntier_lab.Exec.Frame.{framed-Registered}
use saas_ntier_lab.Provision.Keeps.{provision-Registered}
use saas_ntier_lab.App.{Job, Server}
use saas_ntier_lab.App.Handlers.{Request, serve}
use saas_ntier_lab.App.Handlers.Keeps.{serve-KeepsRows}
use saas_ntier_lab.ControlPlane.{Setup, defaults, subprocess_ns}
use saas_ntier_lab.ControlPlane.Keeps.{
  defaults-IsSafe, subprocess_ns-Keeps, resuming-Registered, deleting-Registered,
}
use saas_ntier_lab.ControlPlane.Jobs.{
  resume_failed, note_failed, delete_failed, provision_job, resume_job, delete_job, run_job,
  run_thread,
}

module _ (p : Platform) (s : Setup) where
  resume_failed-Registered : (k : String) (e : Error) → Keeps (Registered p) (resume_failed p s k e)
  unfolding resume_failed
  resume_failed-Registered k e = search registered_rules

  note_failed-Registered :
      (k : String) (e : Error) (o : Option Row) → Keeps (Registered p) (note_failed p s k e o)
  unfolding note_failed
  note_failed-Registered k e none = search registered_rules
  note_failed-Registered k e (some r) = search registered_rules

  delete_failed-Registered : (k : String) (e : Error) → Keeps (Registered p) (delete_failed p s k e)
  unfolding delete_failed
  delete_failed-Registered k e = search (registered_rules, note_failed-Registered)

  run_job-Registered : (k : String) (job : Job) → Keeps (Registered p) (run_job p s k job)
  unfolding run_job provision_job resume_job delete_job
  run_job-Registered k (Job.provisioning tier infra identity) =
      provision-Registered s.chart_dir s.guardrails_dir s.tofu_dir k _
  run_job-Registered k Job.resuming =
      search (registered_rules, resuming-Registered, resume_failed-Registered)
  run_job-Registered k Job.deleting =
      search (registered_rules, deleting-Registered, delete_failed-Registered)

  -- What happens to the server, one after the other: a request is served, or a job runs to its end.
  pub data Turn : Server p → Server p → Type 0 where
    request : (r : Request) (t : Server p) → Turn t (serve (defaults p s) (subprocess_ns p s) r t).1
    thread : (k : String) (job : Job) (t : Server p) → Turn t (run_thread p s k job t)

  pub data Turns : Server p → Server p → Type 0 where
    start : {t : Server p} → Turns t t
    next : {t u v : Server p} → Turns t u → Turn u v → Turns t v

  Turn-IsRegistry :
      {t u : Server p} → Turn t u → IsRegistry t.world.table → IsRegistry u.world.table
  Turn-IsRegistry (request r t) v =
      (serve-KeepsRows (defaults p s) (defaults-IsSafe p s) (subprocess_ns p s)
          (framed-Registered _ (subprocess_ns-Keeps p s)) r).at
        t v
  Turn-IsRegistry (thread k job t) v = unfold run_thread in (run_job-Registered k job).at t.world v

  -- However requests and jobs follow on each other, whatever the requests ask for and the systems
  -- outside answer, the server's registry keeps its invariant: valid and distinct tenant ids, one of
  -- the three desired statuses in each row, and versions from 1 on.
  pub Turns-IsRegistry :
      {t u : Server p} → Turns t u → IsRegistry t.world.table → IsRegistry u.world.table
  Turns-IsRegistry start v = v
  Turns-IsRegistry (next before turn) v = Turn-IsRegistry turn (Turns-IsRegistry before v)

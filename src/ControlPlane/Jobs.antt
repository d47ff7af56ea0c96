-- ===== src/ControlPlane/Jobs.antt =====
-- The functions of the jobs of control-plane/app.py, which run in threads of their own, and the server
-- with them. What a job raises ends its thread, and nothing sees it.
pub mod Ends
pub mod Turns
use saas_ntier_lab.Prelude.{
  String, Bool, true, false, ◌&&◌, Option, none, some, List, if◌then◌else◌,
}
use saas_ntier_lab.Errors.{Error, is_control_plane}
use saas_ntier_lab.Store.{Row, Fields, Status, Desired, no_fields}
use saas_ntier_lab.Exec.{
  Platform, Exec, ◌>>=◌, ◌>>◌, pure, raise, catch, handle, continue, store_get, store_upsert,
}
use saas_ntier_lab.Provision.{Order, provision}
use saas_ntier_lab.Lifecycle.{delete_failed_by}
use saas_ntier_lab.App.{Job, Server, provisioning}
use saas_ntier_lab.App.Handlers.Jobs.{end_job}
use saas_ntier_lab.ControlPlane.{Setup, resuming, deleting}

-- The write of the job of `resume`
abbrev pub not_resumed : Error → Fields
not_resumed e = record no_fields {
  status = some Status.failed;
  desired_status = some Desired.active;
  error = some (some e.message);
}

module _ (p : Platform) (s : Setup) where
  abbrev pub order_of : String → Bool → Bool → Order
  order_of tier infra identity = record {
    tier = tier;
    ensure_infra = infra;
    ensure_identity = identity;
    my_ip = p.environ "MY_IP";
  }

  pub resume_failed : String → Error → Exec p (Unit {0})
  unfolding store_upsert
  resume_failed k e =
      let noted : Exec p (Unit {0}) = (do _ ← store_upsert k (not_resumed e); pure tt) in
      if is_control_plane e.kind then noted else raise e

  -- The job of `remove` writes to a row that is there.
  pub note_failed : String → Error → Option Row → Exec p (Unit {0})
  unfolding store_upsert
  note_failed k e none = pure tt
  note_failed k e (some r) = do _ ← store_upsert k (delete_failed_by e); pure tt

  pub delete_failed : String → Error → Exec p (Unit {0})
  unfolding store_get note_failed
  delete_failed k e = store_get k >>= note_failed k e

  -- `_fn` of `create_tenant`
  pub provision_job : String → String → Bool → Bool → Exec p (Unit {0})
  unfolding provision
  provision_job k tier infra identity =
      provision p s.chart_dir s.guardrails_dir s.tofu_dir k (order_of tier infra identity)

  -- `_fn` of `resume`
  pub resume_job : String → Exec p (Unit {0})
  unfolding resuming resume_failed
  resume_job k = catch (do _ ← resuming p s k; pure tt) (resume_failed k)

  -- `_fn` of `remove`
  pub delete_job : String → Exec p (Unit {0})
  unfolding deleting delete_failed
  delete_job k = catch (deleting p s k) (delete_failed k)

  -- `fn()` of `_start_job`
  unfoldable pub run_job : String → Job → Exec p (Unit {0})
  unfolding provision_job resume_job delete_job
  run_job k (Job.provisioning tier infra identity) = provision_job k tier infra identity
  run_job k Job.resuming = resume_job k
  run_job k Job.deleting = delete_job k

  -- `_run` of `_start_job`: the job of the tenant runs, and then its id is discarded, however it ends.
  unfoldable pub run_thread : String → Job → Server p → Server p
  unfolding run_job end_job
  run_thread k job server = record {
    world = (run_job k job server.world).1;
    jobs = end_job k server.jobs;
  }

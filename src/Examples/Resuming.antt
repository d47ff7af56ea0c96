-- ===== src/Examples/Resuming.antt =====
-- Resumptions, on a platform where every call succeeds and on one where every command fails, and the
-- removal of a database role.
use saas_ntier_lab.Prelude.{◌+◌, ◌≡◌, refl, String, some, insert, [], ◌∷◌}
use saas_ntier_lab.Errors.{Result, ok, err, Error, Kind}
use saas_ntier_lab.Ids.{validate_tenant_id}
use saas_ntier_lab.Store
use saas_ntier_lab.Store.{Row, Status, Desired}
use saas_ntier_lab.Exec.{
  Platform, World, Exit, store_get, spawn, capture_of, feed_to, time_now, write_text,
}
use saas_ntier_lab.Shell.{run_error}
use saas_ntier_lab.Lifecycle.Resume.{resume_tenant}
use saas_ntier_lab.Lifecycle.Resume.Registry.{resume_tenant_returns, resume_tenant_rolls_back}
use saas_ntier_lab.PgAdmin.{Conditions, drop_postgres_role}
use saas_ntier_lab.PgAdmin.Complete.{DroppedBy, drop_postgres_role_completes}
use saas_ntier_lab.Examples.{calm, world, outputs, globex, rows, globex-IsTenantId}

abbrev active_globex : Row
active_globex = record globex {
  desired_status = Desired.active;
  status = Status.active;
  endpoint = some "http://host/tenant-globex";
  path_prefix = some "/tenant-globex";
  version = 4;
  updated_at = "now";
}

resumes : (resume_tenant calm "chart" "guardrails" "workload" "globex" world).0 ≡ ok active_globex
unfolding resume_tenant validate_tenant_id store_get Store.get Store.list insert capture_of spawn
    feed_to run_error time_now write_text Store.upsert
resumes = refl

found : Store.get world.table "globex" ≡ some globex
unfolding Store.get
found = refl

resume_tenant_returns_example :
    (Store.get (resume_tenant calm "chart" "guardrails" "workload" "globex" world).1.table "globex"
      ≡ some active_globex)
    × (active_globex.status ≡ Status.active)
resume_tenant_returns_example =
    resume_tenant_returns calm "chart" "guardrails" "workload" "globex" world globex active_globex
      globex-IsTenantId found resumes

abbrev broken : Platform
broken = record calm { subprocess = λ cmd x. (Exit.timed_out, x + 1) }

abbrev before : World broken
before = record { table = rows; ext = 0; log = [] }

abbrev not_installed : Error
not_installed = record { kind = Kind.timeout_expired; message = "timed out" }

raises :
    (resume_tenant broken "chart" "guardrails" "workload" "globex" before).0 ≡ err not_installed
unfolding resume_tenant validate_tenant_id store_get Store.get Store.list insert capture_of spawn
raises = refl

resume_tenant_rolls_back_example :
    (resume_tenant broken "chart" "guardrails" "workload" "globex" before).1.table ≡ rows
resume_tenant_rolls_back_example =
    resume_tenant_rolls_back broken "chart" "guardrails" "workload" "globex" before not_installed
      globex-IsTenantId raises

abbrev decode : String → Result Conditions
decode text = ok (("Complete", "True") ∷ [])

drops : (drop_postgres_role calm decode "/tmp" outputs "acme" 300 world).0 ≡ ok tt
unfolding drop_postgres_role validate_tenant_id feed_to spawn
drops = refl

drop_postgres_role_completes_example : DroppedBy calm decode "/tmp" outputs "acme"
drop_postgres_role_completes_example =
    drop_postgres_role_completes calm decode "/tmp" outputs "acme" 300 world drops

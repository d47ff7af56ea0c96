-- ===== src/Examples/Commands.antt =====
-- Runs of the control plane put together: commands, jobs and the import of an older registry, with a
-- `kubectl` whose answers are no JSON.
use saas_ntier_lab.Prelude.{◌+◌, String, ◌≡◌, refl, false, true, none, some, [], ◌∷◌, lookup}
use saas_ntier_lab.Errors.{Result, ok, err, Error, Kind}
use saas_ntier_lab.Store
use saas_ntier_lab.Store.{Table}
use saas_ntier_lab.Store.Invariant.{IsRegistry}
use saas_ntier_lab.Store.Legacy.{Meta}
use saas_ntier_lab.Exec.{Platform, World, Exit}
use saas_ntier_lab.Exec.Keeps.{only}
use saas_ntier_lab.PgAdmin.{Conditions}
use saas_ntier_lab.Lifecycle.{delete_tenant}
use saas_ntier_lab.Lifecycle.Outcome.{IsRecorded}
use saas_ntier_lab.Lifecycle.Removals.{is_removal}
use saas_ntier_lab.Lifecycle.Dropping.{dropping, delete_without_job}
use saas_ntier_lab.Onboard.Main.{initial, merge_rows}
use saas_ntier_lab.Onboard.Main.Ends.{merge_rows-irsa}
use saas_ntier_lab.Opening.{open_store}
use saas_ntier_lab.Opening.Laws.{IsOpened, open_store_imports}
use saas_ntier_lab.App.{Job, Server}
use saas_ntier_lab.App.Handlers.{remove_one, serve}
use saas_ntier_lab.ControlPlane.{Setup, Listing, discover_active, defaults, subprocess_ns}
use saas_ntier_lab.ControlPlane.Discovery.{IsListing, discover_active_lists}
use saas_ntier_lab.ControlPlane.Jobs.{run_job, run_thread}
use saas_ntier_lab.ControlPlane.Jobs.Ends.{IsSettled, delete_job_settles}
use saas_ntier_lab.ControlPlane.Jobs.Turns.{start, next, request, thread, Turns-IsRegistry}
use saas_ntier_lab.Cli.{Command, run}
use saas_ntier_lab.Cli.Keeps.{session, session-IsRegistry}
use saas_ntier_lab.Cli.Ends.{CreateEnds, DeleteEnds, create_ends, delete_ends}
use saas_ntier_lab.Examples.{
  calm, world, outputs, rows, acme, globex, acme-IsTenantId, initech-IsTenantId,
}
use saas_ntier_lab.Examples.Registry.{rows-IsRegistry}

abbrev pub not_json : Error
not_json = record { kind = Kind.value_error; message = "not JSON" }

abbrev pub no_json : String → Result Conditions
no_json s = err not_json

abbrev pub lab : Setup
lab = record {
  chart_dir = "chart";
  guardrails_dir = "guardrails";
  tofu_dir = "workload";
  data_dir = "data";
  tmp_dir = "tmp";
  conditions = no_json;
  object = λ s. none;
  entries = λ s. none;
  pages = 1;
}

delete_without_job_example :
    (only is_removal (delete_tenant calm (dropping calm no_json "tmp") "acme" world).1.log ≡ [])
    × ((e : Error) × ((delete_tenant calm (dropping calm no_json "tmp") "acme" world).0 ≡ err e)
        × IsRecorded "acme" e
            (delete_tenant calm (dropping calm no_json "tmp") "acme" world).1.table)
delete_without_job_example =
    delete_without_job calm no_json "tmp" "acme" world acme-IsTenantId
      (λ ns job d. let no = d.answer.read in cc)

session-IsRegistry_example :
    IsRegistry
      (session calm lab
        (Command.create "initech" "standard" false
          ∷ Command.suspend "acme"
          ∷ Command.delete "globex"
          ∷ Command.reconcile none
          ∷ [])
        world).table
session-IsRegistry_example = session-IsRegistry calm lab _ world rows-IsRegistry

create_ends_example :
    CreateEnds "initech" (run calm lab (Command.create "initech" "standard" false) world)
create_ends_example = create_ends calm lab "initech" "standard" false world initech-IsTenantId

delete_ends_example : DeleteEnds calm lab "acme" (run calm lab (Command.delete "acme") world)
delete_ends_example = delete_ends calm lab "acme" world acme-IsTenantId

abbrev server : Server calm
server = record { world = world; jobs = [] }

abbrev asked : Server calm
asked = (serve (defaults calm lab) (subprocess_ns calm lab) (remove_one "acme") server).1

Turns-IsRegistry_example : IsRegistry (run_thread calm lab "acme" Job.deleting asked).world.table
Turns-IsRegistry_example =
    Turns-IsRegistry calm lab
      (next (next start (request (remove_one "acme") server)) (thread "acme" Job.deleting asked))
      rows-IsRegistry

delete_job_settles_example :
    ((run_job calm lab "acme" Job.deleting world).0 ≡ ok tt)
    × IsSettled calm lab "acme" (run_job calm lab "acme" Job.deleting world).1.table
delete_job_settles_example = delete_job_settles calm lab "acme" world acme-IsTenantId

abbrev there : Platform
there = record calm { file_exists = λ path x. (true, x + 1) }

abbrev blank : World there
blank = record { table = []; ext = 0; log = [] }

abbrev older : Meta
older = record {
  status = some "DELETING";
  tier = none;
  endpoint = none;
  path_prefix = none;
  owned_by = some "opentofu";
  secret_name = none;
  irsa_role_arn = none;
  error = none;
  delete_step = none;
  created_at = some "then";
  updated_at = none;
}

open_store_imports_example :
    IsOpened there "data"
      (λ s. some (("initech", older) ∷ []))
      blank
      (ok tt)
      (open_store there "data" (λ s. some (("initech", older) ∷ [])) blank).1.table
unfolding open_store
open_store_imports_example =
    open_store_imports there "data" (λ s. some (("initech", older) ∷ [])) blank

merge_rows-irsa_example :
    lookup "acme" (merge_rows rows (initial outputs)).irsa
    ≡ some "arn:aws:iam::1:role/lab-tenant-acme"
unfolding Store.get lookup
merge_rows-irsa_example = merge_rows-irsa rows (initial outputs) "acme" rows-IsRegistry

abbrev busy : Platform
busy = record calm {
  capture = λ cmd x. ((Exit.exited 0, "default tenant-acme tenant-hooli\n"), x + 1);
}

abbrev crowded : World busy
crowded = record { table = rows; ext = 0; log = [] }

finds_hooli :
    (discover_active busy lab crowded).0
    ≡ ok (record { tenants = acme ∷ globex ∷ []; unmanaged_namespaces = "tenant-hooli" ∷ [] })
unfolding discover_active Store.list
finds_hooli = refl

discover_active_lists_example :
    ((discover_active busy lab crowded).1.table ≡ rows)
    × ((o : Listing) → (discover_active busy lab crowded).0 ≡ ok o → IsListing busy lab crowded o)
discover_active_lists_example = discover_active_lists busy lab crowded

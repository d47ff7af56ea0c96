-- ===== src/PgAdmin.antt =====
-- control-plane/pg_admin.py: the job that drops a tenant's database role. `decode` reads `kubectl`'s JSON:
-- the type and the status of each of the job's conditions, in order. `tmp_dir` is the directory that
-- `tempfile.TemporaryDirectory` makes; its removal is not modelled.
pub mod Script
pub mod Manifests
pub mod Cleanup
pub mod Looks
pub mod Complete
pub mod Keeps
use saas_ntier_lab.Prelude.{
  ℕ, ◌+◌, ◌%◌, String, Bool, true, false, Option, none, some, List, [], ◌∷◌, ◌==◌, ◌<>◌, or_else,
  truthy, show_nat, lookup, insert, if◌then◌else◌,
}
use saas_ntier_lab.Errors.{Result, ok, err, Error, Kind}
use saas_ntier_lab.Ids.{validate_tenant_id}
use saas_ntier_lab.Json.{json_text, json_list, json_object, json_dict}
use saas_ntier_lab.Exec.{
  Platform, World, Exec, Exit, Outputs, ◌>>=◌, ◌>>◌, pure, raise, continue, lift, capture_of,
  write_text, time_now,
}
use saas_ntier_lab.Exec.Poll.{Polled, found, late, unfinished, poll}
use saas_ntier_lab.Shell.{error_of, raise_some, run_ok}
use saas_ntier_lab.Onboard.{onboard_error, check_error, run_checked, run_fed, path_join}
use saas_ntier_lab.PgAdmin.Manifests.{service_account, container, job_manifest}
use saas_ntier_lab.PgAdmin.Script.{drop_script}

abbrev pub Conditions : Type 0
Conditions = List (String × String)

-- A dict of the pairs: a later pair replaces an earlier one.
pub dict_from : Conditions → Conditions → Conditions
unfolding insert
dict_from [] d = d
dict_from ((k, v) ∷ rest) d = dict_from rest (insert k v d)

-- `conds.get(kind) == "True"`
unfoldable pub is_true : String → Conditions → Bool
unfolding dict_from lookup
is_true kind conds = or_else (lookup kind (dict_from conds [])) "" == "True"

abbrev pub needs_output : String → Option String → Result String
needs_output message value =
    if truthy value then ok (or_else value "") else err (onboard_error message)

abbrev pub apply_json : List String
apply_json = "kubectl" ∷ "apply" ∷ "-f" ∷ "-" ∷ []

abbrev pub get_job : String → String → List String
get_job ns job = "kubectl" ∷ "-n" ∷ ns ∷ "get" ∷ "job" ∷ job ∷ "-o" ∷ "json" ∷ []

abbrev pub job_logs : String → String → List String
job_logs ns job = "kubectl" ∷ "-n" ∷ ns ∷ "logs" ∷ ("job/" <> job) ∷ []

abbrev pub delete_job : String → String → List String
delete_job ns job =
    "kubectl" ∷ "-n" ∷ ns ∷ "delete" ∷ "job" ∷ job ∷ "--ignore-not-found" ∷ "--wait=false" ∷ []

abbrev pub delete_cm : String → String → List String
delete_cm ns cm = "kubectl" ∷ "-n" ∷ ns ∷ "delete" ∷ "cm" ∷ cm ∷ "--ignore-not-found" ∷ []

abbrev pub create_cm : String → String → String → List String
create_cm ns cm script_path =
    "kubectl"
    ∷ "-n"
    ∷ ns
    ∷ "create"
    ∷ "configmap"
    ∷ cm
    ∷ ("--from-file=drop_role.py=" <> script_path)
    ∷ []

abbrev pub stdout_or : Option Error → String → Result String
stdout_or none out = ok out
stdout_or (some e) out = err e

abbrev pub after :
    {p : Platform} {A : Type 0} → Result A → Exec p (Unit {0}) → World p → Result A × World p
after r cleanup w = let (done, w') = cleanup w in (elim done [ ok _ ↦ r | err e ↦ err e ], w')

-- `try: m` with `finally: cleanup`. What `cleanup` raises takes the place of how `m` has ended.
abbrev pub finally : {p : Platform} {A : Type 0} → Exec p A → Exec p (Unit {0}) → Exec p A
finally m cleanup w = let (r, w') = m w in after r cleanup w'

module _ (p : Platform) (decode : String → Result Conditions) (tmp_dir : String) where
  -- `_kubectl_json`, of the job's conditions
  pub job_conditions : String → String → Exec p Conditions
  unfolding capture_of check_error
  job_conditions ns job = do
    r ← capture_of (get_job ns job)
    out ← lift (stdout_or (check_error (get_job ns job) r.0) r.1)
    lift (decode out)

  -- `subprocess.call`, whose exit code is not looked at
  pub call_quietly : List String → Exec p (Unit {0})
  unfolding run_ok
  call_quietly cmd = do _ ← run_ok p cmd; pure tt

  -- `ensure_migrator_sa`
  unfoldable pub ensure_migrator_sa : Outputs → String → Exec p String
  unfolding service_account run_fed
  ensure_migrator_sa o platform = do
    k ← lift (validate_tenant_id (some platform))
    migrator ←
        lift (needs_output "tofu output migrator_irsa_role_arn is empty" o.migrator_irsa_role_arn)
    run_fed p apply_json (service_account ("tenant-" <> k) migrator)
    pure ("tenant-" <> k)

  -- One look at the job: `some` is that it is complete.
  pub job_done : String → String → Conditions → Exec p (Option (Unit {0}))
  unfolding is_true call_quietly
  job_done ns job conds =
      if is_true "Complete" conds
      then (do call_quietly (job_logs ns job); pure (some tt))
      else if is_true "Failed" conds
      then (do
        call_quietly (job_logs ns job)
        raise (onboard_error ("drop-role job " <> job <> " failed")))
      else pure none

  pub look_job : String → String → Exec p (Option (Unit {0}))
  unfolding job_conditions job_done
  look_job ns job = do conds ← job_conditions ns job; job_done ns job conds

  -- What follows the loop
  pub job_ended : String → String → Polled (Unit {0}) → Exec p (Unit {0})
  unfolding call_quietly
  job_ended ns job (found a) = pure tt
  job_ended ns job late = do
    call_quietly (job_logs ns job)
    raise (onboard_error ("drop-role job " <> job <> " timed out"))
  job_ended ns job unfinished = raise (error_of Kind.out_of_fuel "")

  -- The body of the `try`, on as much fuel as the timeout has seconds, and one more
  pub await_job : String → String → ℕ → ℕ → Exec p (Unit {0})
  unfolding poll look_job job_ended
  await_job ns job timeout deadline = do
    r ← poll 5 (look_job ns job) (timeout + 1) deadline
    job_ended ns job r

  -- The `finally`
  pub clean_up : String → String → String → Exec p (Unit {0})
  unfolding call_quietly
  clean_up ns job cm = do call_quietly (delete_job ns job); call_quietly (delete_cm ns cm)

  -- The job, from its manifest on
  pub run_job : String → String → String → String → ℕ → Exec p (Unit {0})
  unfolding await_job clean_up run_fed time_now
  run_job ns job cm manifest timeout = do
    run_fed p apply_json manifest
    t ← time_now
    finally (await_job ns job timeout (t + timeout)) (clean_up ns job cm)

  -- From the names of the job and the config map on; `suffix` tells them from those of other calls.
  pub drop_by_job : String → String → String → String → String → ℕ → Exec p (Unit {0})
  unfolding run_checked path_join write_text container job_manifest run_job
  drop_by_job ns tenant_id region master suffix timeout = do
    let job = "drop-role-" <> tenant_id <> "-" <> suffix
    let cm = "drop-role-script-" <> tenant_id <> "-" <> suffix
    let box =
        container region master ("tenant_" <> tenant_id) ("tenant_" <> tenant_id <> "_isolation")
    write_text (path_join tmp_dir "drop_role.py") drop_script
    run_checked p (create_cm ns cm (path_join tmp_dir "drop_role.py"))
    run_job ns job cm (job_manifest ns job cm box) timeout

  -- `drop_postgres_role`
  unfoldable pub drop_postgres_role : Outputs → String → ℕ → Exec p (Unit {0})
  unfolding ensure_migrator_sa time_now drop_by_job show_nat
  drop_postgres_role o tenant_id timeout = do
    k ← lift (validate_tenant_id (some tenant_id))
    ns ← ensure_migrator_sa o (or_else o.platform_tenant_id "a")
    master ← lift (needs_output "tofu output rds_secret_name is empty" o.rds_secret_name)
    t ← time_now
    drop_by_job ns k (or_else o.aws_region "us-east-1") master (show_nat (t % 100000)) timeout

-- ===== src/PgAdmin/Complete.antt =====
-- When `drop_postgres_role` of control-plane/pg_admin.py returns.
use saas_ntier_lab.Prelude.{ℕ, ◌+◌, ◌%◌, ◌<>◌, String, ◌≡◌, refl, sym, some, or_else, show_nat}
use saas_ntier_lab.Errors.{Result, ok, err}
use saas_ntier_lab.Ids.{validate_tenant_id}
use saas_ntier_lab.Ids.Grammar.{validate_tenant_id-IsTenantId}
use saas_ntier_lab.Store.Refinement.{some_injective}
use saas_ntier_lab.Exec.{Platform, World, Exec, Outputs, lift, time_now, write_text}
use saas_ntier_lab.Exec.Returns.{
  Returns, Returns-bind, Returns-rest, Returns-pure, Returns-weaken, Returns-lift,
}
use saas_ntier_lab.Onboard.{run_fed, run_checked, path_join}
use saas_ntier_lab.PgAdmin.{
  Conditions, await_job, after, finally, clean_up, run_job, drop_postgres_role, ensure_migrator_sa,
  needs_output, apply_json, create_cm, drop_by_job,
}
use saas_ntier_lab.PgAdmin.Script.{drop_script}
use saas_ntier_lab.PgAdmin.Manifests.{service_account, container, job_manifest}
use saas_ntier_lab.PgAdmin.Looks.{WasComplete, await-Returns}

module _ (p : Platform) (decode : String → Result Conditions) (tmp_dir : String) where
  finally-ok :
      (r : Result (Unit {0})) (cleanup : Exec p (Unit {0})) (w : World p) (a : Unit {0})
      → (after r cleanup w).0 ≡ ok a
      → r ≡ ok a
  finally-ok r cleanup w a h = by (cleanup w).0 h
    where
      by : (done : Result (Unit {0})) → (elim done [ ok _ ↦ r | err e ↦ err e ]) ≡ ok a → r ≡ ok a
      by (ok b) h = h
      by (err e) h = cc

  Returns-finally :
      {Q : Type 0} (m : Exec p (Unit {0})) (cleanup : Exec p (Unit {0}))
      → Returns (λ a (w : World p). Q) m
      → Returns (λ a (w : World p). Q) (finally m cleanup)
  Returns-finally m cleanup k = record {
    at = λ w a h. k.at w a (finally-ok (m w).0 cleanup (m w).1 a h);
  }

  run_job-Returns :
      (ns job cm manifest : String) (timeout : ℕ)
      → Returns
          (λ a (w : World p). WasComplete p decode tmp_dir ns job)
          (run_job p decode tmp_dir ns job cm manifest timeout)
  unfolding run_job
  run_job-Returns ns job cm manifest timeout = Returns-rest (run_fed p apply_json manifest) _ (λ _.
      Returns-rest time_now _ (λ t.
        Returns-finally (await_job p decode tmp_dir ns job timeout (t + timeout))
          (clean_up p decode tmp_dir ns job cm)
          (await-Returns p decode tmp_dir ns job timeout (t + timeout))))

  validated : (v k : String) → validate_tenant_id (some v) ≡ ok k → k ≡ v
  validated v k h = sym (some_injective v k ((validate_tenant_id-IsTenantId (some v) k).0 h).0)

  migrator-Returns :
      (o : Outputs) (platform : String)
      → Returns
          (λ ns (w : World p). ns ≡ "tenant-" <> platform)
          (ensure_migrator_sa p decode tmp_dir o platform)
  unfolding ensure_migrator_sa
  migrator-Returns o platform =
      Returns-bind (lift (validate_tenant_id (some platform))) _
        (Returns-lift _ (λ k w h. validated platform k h))
        (λ k w same.
          (Returns-rest {Q = λ ns (w' : World p). ns ≡ "tenant-" <> platform}
              (lift (
                needs_output "tofu output migrator_irsa_role_arn is empty"
                  o.migrator_irsa_role_arn))
              _
              (λ migrator.
                Returns-rest (run_fed p apply_json (service_account ("tenant-" <> k) migrator)) _
                  (λ _. Returns-pure ("tenant-" <> k) (λ w'. rw same refl)))).at
            w)

  by_job-Returns :
      (ns k region master suffix : String) (timeout : ℕ)
      → Returns
          (λ a (w : World p). WasComplete p decode tmp_dir ns ("drop-role-" <> k <> "-" <> suffix))
          (drop_by_job p decode tmp_dir ns k region master suffix timeout)
  unfolding drop_by_job
  by_job-Returns ns k region master suffix timeout =
      Returns-rest (write_text (path_join tmp_dir "drop_role.py") drop_script) _ (λ _.
        Returns-rest
          (run_checked p (
            create_cm ns ("drop-role-script-" <> k <> "-" <> suffix)
              (path_join tmp_dir "drop_role.py")))
          _
          (λ _.
            run_job-Returns ns ("drop-role-" <> k <> "-" <> suffix)
              ("drop-role-script-" <> k <> "-" <> suffix)
              (job_manifest ns ("drop-role-" <> k <> "-" <> suffix)
                ("drop-role-script-" <> k <> "-" <> suffix)
                (container region master ("tenant_" <> k) ("tenant_" <> k <> "_isolation")))
              timeout))

  -- `kubectl` has answered that a job made for the tenant is complete.
  unfoldable pub DroppedBy : Outputs → String → Type 0
  DroppedBy o tenant_id =
      (n : ℕ) × WasComplete p decode tmp_dir ("tenant-" <> or_else o.platform_tenant_id "a")
        ("drop-role-" <> tenant_id <> "-" <> show_nat n)

  drop-Returns :
      (o : Outputs) (tenant_id : String) (timeout : ℕ)
      → Returns
          (λ a (w : World p). DroppedBy o tenant_id)
          (drop_postgres_role p decode tmp_dir o tenant_id timeout)
  unfolding drop_postgres_role DroppedBy
  drop-Returns o tenant_id timeout =
      Returns-bind (lift (validate_tenant_id (some tenant_id))) _
        (Returns-lift _ (λ k w h. validated tenant_id k h))
        (λ k w same.
          (Returns-bind {Q = λ a (w' : World p). DroppedBy o tenant_id}
              (ensure_migrator_sa p decode tmp_dir o (or_else o.platform_tenant_id "a")) _
              (migrator-Returns o (or_else o.platform_tenant_id "a"))
              (λ ns w1 there.
                (Returns-rest {Q = λ a (w' : World p). DroppedBy o tenant_id}
                    (lift (needs_output "tofu output rds_secret_name is empty" o.rds_secret_name)) _
                    (λ master. Returns-rest time_now _ (λ t.
                      Returns-weaken
                        (drop_by_job p decode tmp_dir ns k (or_else o.aws_region "us-east-1") master
                          (show_nat (t % 100000)) timeout)
                        (by_job-Returns ns k (or_else o.aws_region "us-east-1") master
                          (show_nat (t % 100000)) timeout)
                        (λ a w2 done. (t % 100000, rw (sym there) (rw (sym same) done)))))).at
                  w1)).at
            w)

  -- When `drop_postgres_role` returns, `kubectl` has been asked for a job of the tenant in the namespace of
  -- the platform's tenant, has succeeded, and has answered that the job is complete: a job that has
  -- failed, that is not done at the deadline or that cannot be looked at makes it raise.
  pub drop_postgres_role_completes :
      (o : Outputs) (tenant_id : String) (timeout : ℕ) (w : World p)
      → (drop_postgres_role p decode tmp_dir o tenant_id timeout w).0 ≡ ok tt
      → DroppedBy o tenant_id
  drop_postgres_role_completes o tenant_id timeout w h =
      (drop-Returns o tenant_id timeout).at w tt h

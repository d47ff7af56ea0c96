-- ===== src/Lifecycle/Dropping.antt =====
-- `delete_tenant` of control-plane/lifecycle.py with the `drop_postgres_role` of
-- control-plane/pg_admin.py that it calls.
use saas_ntier_lab.Prelude.{
  ℕ, zero, suc, String, ◌≡◌, refl, false, Option, none, some, inl, inr, List, [], ◌∷◌,
}
use saas_ntier_lab.Errors.{Result, ok, err, Error, Result-cases}
use saas_ntier_lab.Ids.Grammar.{IsTenantId}
use saas_ntier_lab.Store
use saas_ntier_lab.Exec.{Platform, World, Exec, Outputs, Call, command, tofu_outputs, store_upsert}
use saas_ntier_lab.Exec.Keeps.{
  Keeps, Logged, Registered, only, capture-Logged, feed-Logged, write-Logged, spawn-Logged,
  sleep_for-Logged, time-Logged, upsert-Registered, delete-Registered, spawn-Registered,
  aws_call-Registered, sleep_for-Registered, tofu_outputs-Registered, time-Registered,
  write-Registered, capture-Registered, feed-Registered,
}
use saas_ntier_lab.Exec.Ends.{Fails}
use saas_ntier_lab.Exec.Returns.{
  Returns, Returns-rest, Returns-first, Returns-either, Returns-catch,
}
use saas_ntier_lab.PgAdmin.{Conditions, drop_postgres_role, apply_json}
use saas_ntier_lab.PgAdmin.Keeps.{drop_role-Keeps}
use saas_ntier_lab.PgAdmin.Looks.{WasComplete}
use saas_ntier_lab.PgAdmin.Complete.{DroppedBy, drop_postgres_role_completes}
use saas_ntier_lab.Lifecycle.{
  delete_tenant, teardown, revoke_rounds, revoke_postgres_role, disable_application_access, Owned,
  owned_of, fail_delete, delete_started, step,
}
use saas_ntier_lab.Lifecycle.Outcome.{IsRecorded, fail_delete-Fails, delete_tenant_try}
use saas_ntier_lab.Lifecycle.Keeps.{delete_tenant-Keeps}
use saas_ntier_lab.Lifecycle.Removals.{is_removal, delete_fails_closed}

module _ (p : Platform) (decode : String → Result Conditions) (tmp_dir : String) where
  -- `drop_postgres_role(outputs, tenant_id)`, with the default timeout
  abbrev pub dropping : Outputs → String → Exec p (Unit {0})
  dropping o tenant_id = drop_postgres_role p decode tmp_dir o tenant_id 300

  -- A completed job of the tenant, for some outputs of the stack.
  abbrev pub WasDropped : String → Type 0
  WasDropped tenant_id = (o : Outputs) × DroppedBy p decode tmp_dir o tenant_id

  rounds-Returns :
      (rounds i attempts : ℕ) (last : Option Error) (o : Outputs) (k : String)
      → Returns
          (λ a (w : World p). WasDropped k)
          (revoke_rounds p dropping rounds i attempts last o k)
  unfolding revoke_rounds
  rounds-Returns zero i attempts last o k = record { at = λ w a h. cc }
  rounds-Returns (suc rounds) i attempts last o k =
      Returns-either (dropping o k) _
        (record { at = λ w a h. (o, drop_postgres_role_completes p decode tmp_dir o k 300 w h) })
        (λ e. Returns-rest _ _ (λ _. rounds-Returns rounds _ attempts (some e) o k))

  revoke-Returns :
      (o : Outputs) (k : String)
      → Returns (λ a (w : World p). WasDropped k) (revoke_postgres_role p dropping o k)
  unfolding revoke_postgres_role
  revoke-Returns o k = rounds-Returns 3 0 3 none o k

  teardown-Returns :
      (owned : Owned) (k : String)
      → Returns (λ a (w : World p). WasDropped k) (teardown p dropping owned k)
  unfolding teardown
  teardown-Returns owned k = Returns-rest (disable_application_access p k) _ (λ _.
      Returns-rest (store_upsert k (step "access_disabled")) _ (λ _.
        Returns-rest tofu_outputs _
          (λ o. Returns-first (revoke_postgres_role p dropping o k) _ (revoke-Returns o k))))

  quiet_command : (rest : List String) → is_removal (command ("kubectl" ∷ "-n" ∷ rest)) ≡ false
  quiet_command [] = refl
  quiet_command (s ∷ rest) = refl

  drop_role-Logged :
      (l : List Call) (o : Outputs) (k : String) → Keeps (Logged p is_removal l) (dropping o k)
  drop_role-Logged l o k =
      drop_role-Keeps decode tmp_dir time-Logged sleep_for-Logged (λ f s. write-Logged f s refl)
        (λ rest. capture-Logged _ (quiet_command rest))
        (λ rest. spawn-Logged _ (quiet_command rest)) (λ text. feed-Logged apply_json text refl) o k
        300

  drop_role-Fails :
      ((ns job : String) → ¬ WasComplete p decode tmp_dir ns job)
      → (o : Outputs) (k : String) → Fails (dropping o k)
  unfolding DroppedBy
  drop_role-Fails never o k = record {
    at = λ w. elim (Result-cases (dropping o k w).0) [
      | inl (a, h) ↦
          let done = drop_postgres_role_completes p decode tmp_dir o k 300 w h in
          absurd (never _ _ done.1)
      | inr q ↦ q
    ];
  }

  -- When the deletion of a valid tenant id returns, `kubectl` has answered that a job made for the
  -- tenant, which drops its database role, is complete.
  pub delete_tenant_drops :
      (k : String) (w : World p)
      → IsTenantId k
      → (delete_tenant p dropping k w).0 ≡ ok tt
      → WasDropped k
  delete_tenant_drops k w v h =
      let t = delete_tenant_try dropping k w v in
      (Returns-catch (teardown p dropping (owned_of (Store.get w.table k)) k)
          (fail_delete p dropping k) (teardown-Returns _ k) (fail_delete-Fails dropping k)).at
        (store_upsert k delete_started w).1 tt (rw t at h)

  -- Suppose that `kubectl` never answers that a job is complete. Then deleting a valid tenant id makes
  -- no call that removes its Helm release, namespace, IAM role or secret; it raises, and the row that is
  -- left says DELETE_FAILED.
  pub delete_without_job :
      (k : String) (w : World p)
      → IsTenantId k
      → ((ns job : String) → ¬ WasComplete p decode tmp_dir ns job)
      → (only is_removal (delete_tenant p dropping k w).1.log ≡ only is_removal w.log)
        × ((e : Error) × ((delete_tenant p dropping k w).0 ≡ err e)
            × IsRecorded k e (delete_tenant p dropping k w).1.table)
  delete_without_job k w v never =
      delete_fails_closed dropping drop_role-Logged (drop_role-Fails never) k w v

  pub delete_tenant-Registered : (k : String) → Keeps (Registered p) (delete_tenant p dropping k)
  delete_tenant-Registered k =
      delete_tenant-Keeps dropping sleep_for-Registered
        (λ o j.
          drop_role-Keeps decode tmp_dir time-Registered sleep_for-Registered write-Registered
            (λ rest. capture-Registered _) (λ rest. spawn-Registered _)
            (λ text. feed-Registered apply_json text) o j 300)
        upsert-Registered tofu_outputs-Registered delete-Registered spawn-Registered
        aws_call-Registered k

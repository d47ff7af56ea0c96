-- ===== src/Lifecycle/Removals.antt =====
-- The removing calls of a deletion, when the database role is not dropped.
use saas_ntier_lab.Prelude.{
  ℕ, zero, suc, ◌+◌, String, ◌≡◌, refl, Bool, true, false, ◌&&◌, ◌||◌, Option, none, some, List,
  ◌∷◌, ◌==◌,
}
use saas_ntier_lab.Errors.{err, Error}
use saas_ntier_lab.Ids.{validate_tenant_id}
use saas_ntier_lab.Ids.Grammar.{IsTenantId}
use saas_ntier_lab.Exec.{
  Platform, World, Exec, Outputs, Call, command, aws, AwsCall, fed, wrote, lift, tofu_outputs,
  store_get, store_upsert,
}
use saas_ntier_lab.Exec.Keeps.{
  Keeps, Logged, logged_rules, only, Keeps-bind, upsert-Logged, spawn-Logged, sleep_for-Logged,
  tofu_outputs-Logged,
}
use saas_ntier_lab.Exec.Ends.{Fails, Fails-first, Fails-rest, Fails-catch, Fails-raise, Keeps-first}
use saas_ntier_lab.Lifecycle.{
  delete_tenant, teardown, revoke_rounds, revoke_postgres_role, disable_application_access, Owned,
  owned_of, fail_delete, delete_started, step,
}
use saas_ntier_lab.Lifecycle.Outcome.{IsRecorded, delete_tenant_records, fail_delete-Fails}
use saas_ntier_lab.Lifecycle.Keeps.{disable-Keeps, revoke-Keeps}

-- `helm uninstall …` and `kubectl delete ns …`
abbrev pub removes_ns : List String → Bool
removes_ns (a ∷ b ∷ c ∷ rest) =
    (a == "helm" && b == "uninstall") || (a == "kubectl" && b == "delete" && c == "ns")
removes_ns _ = false

-- The calls that remove the tenant's release, namespace, role or secret.
abbrev pub removes_identity : AwsCall → Bool
removes_identity (AwsCall.delete_role_policy _ _) = true
removes_identity (AwsCall.delete_role _) = true
removes_identity (AwsCall.delete_secret _ _) = true
removes_identity _ = false

abbrev pub is_removal : Call → Bool
is_removal (command cmd) = removes_ns cmd
is_removal (fed cmd text) = removes_ns cmd
is_removal (wrote path text) = false
is_removal (aws c) = removes_identity c

module _ {p : Platform} (drop_role : Outputs → String → Exec p (Unit {0}))
    (quiet : (l : List Call) (o : Outputs) (k : String)
      → Keeps (Logged p is_removal l) (drop_role o k))
    (refused : (o : Outputs) (k : String) → Fails (drop_role o k)) where
  rounds-Fails :
      (rounds i attempts : ℕ) (last : Option Error) (o : Outputs) (k : String)
      → Fails (revoke_rounds p drop_role rounds i attempts last o k)
  unfolding revoke_rounds
  rounds-Fails zero i attempts last o k = Fails-raise _
  rounds-Fails (suc rounds) i attempts last o k =
      Fails-catch (drop_role o k) _ (refused o k)
        (λ e. Fails-rest _ _ (λ _. rounds-Fails rounds (i + 1) attempts (some e) o k))

  revoke-Fails : (o : Outputs) (k : String) → Fails (revoke_postgres_role p drop_role o k)
  unfolding revoke_postgres_role
  revoke-Fails o k = rounds-Fails 3 0 3 none o k

  teardown-Fails : (owned : Owned) (k : String) → Fails (teardown p drop_role owned k)
  unfolding teardown
  teardown-Fails owned k = Fails-rest (disable_application_access p k) _ (λ _.
      Fails-rest (store_upsert k (step "access_disabled")) _ (λ _.
        Fails-rest tofu_outputs _
          (λ o. Fails-first (revoke_postgres_role p drop_role o k) _ (revoke-Fails o k))))

  teardown-Logged :
      (l : List Call) (owned : Owned) (k : String)
      → Keeps (Logged p is_removal l) (teardown p drop_role owned k)
  unfolding teardown
  teardown-Logged l owned k =
      Keeps-bind _ _ (disable-Keeps k (spawn-Logged _ refl) (spawn-Logged _ refl)) (λ _.
        Keeps-bind _ _ (upsert-Logged k _) (λ _. Keeps-bind _ _ tofu_outputs-Logged (λ o.
          Keeps-first _ _ (revoke-Keeps drop_role sleep_for-Logged (quiet l) o k)
            (revoke-Fails o k))))

  delete-Logged :
      (l : List Call) (k : String) → Keeps (Logged p is_removal l) (delete_tenant p drop_role k)
  unfolding delete_tenant fail_delete
  delete-Logged l k = search (logged_rules, teardown-Logged) depth 9

  delete-Fails : (k : String) → Fails (delete_tenant p drop_role k)
  unfolding delete_tenant
  delete-Fails k = Fails-rest (lift (validate_tenant_id (some k))) _ (λ tid.
      Fails-rest (store_get tid) _ (λ item. Fails-rest (store_upsert tid delete_started) _ (λ _.
        Fails-catch (teardown p drop_role (owned_of item) tid) _
          (teardown-Fails (owned_of item) tid) (fail_delete-Fails drop_role tid))))

  -- Fail closed. Suppose that dropping the database role raises whenever it is called, and makes none
  -- of the removing calls itself. Then deleting a valid tenant id makes no call that removes its Helm
  -- release, namespace, IAM role or secret; it raises, and the row that is left says DELETE_FAILED.
  pub delete_fails_closed :
      (k : String) (w : World p)
      → IsTenantId k
      → (only is_removal (delete_tenant p drop_role k w).1.log ≡ only is_removal w.log)
        × ((e : Error) × ((delete_tenant p drop_role k w).0 ≡ err e)
            × IsRecorded k e (delete_tenant p drop_role k w).1.table)
  delete_fails_closed k w v =
      let (e, raised) = (delete-Fails k).at w in
      (
        ((delete-Logged (only is_removal w.log) k).at w (record { same = refl })).same,
        (e, raised, delete_tenant_records drop_role k e w v raised),
      )

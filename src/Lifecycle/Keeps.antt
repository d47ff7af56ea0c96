-- ===== src/Lifecycle/Keeps.antt =====
-- An invariant that the single calls keep is kept by the procedures of control-plane/lifecycle.py.
use saas_ntier_lab.Prelude.{
  ℕ, zero, suc, ◌+◌, ltb, String, Bool, true, false, Option, none, some, List,
}
use saas_ntier_lab.Errors.{Error}
use saas_ntier_lab.Store.{Fields, Owner}
use saas_ntier_lab.Exec.{
  Platform, World, Exec, Outputs, AwsCall, AwsReply, done, client_error, Exit, exited, killed,
  timed_out, not_started, store_upsert, store_delete, spawn, aws_call, sleep_for, tofu_outputs,
}
use saas_ntier_lab.Exec.Keeps.{
  Keeps, keeps_rules, Keeps-bind, Keeps-pure, Keeps-raise, Keeps-catch, Keeps-if,
}
use saas_ntier_lab.AwsIdentity.{delete_tenant_irsa, delete_tenant_secret, unless_gone}
use saas_ntier_lab.Shell.{run, run_ok, run_error, raise_some, ended_well}
use saas_ntier_lab.Lifecycle.{
  tenant_ns, scale_to, delete_ingress, disable_application_access, revoke_rounds,
  revoke_postgres_role, delete_tenant, Owned, teardown, remove_rest, remove_identity,
  delete_kubernetes, fail_delete, delete_if_live, delete_ns,
}

module _ {p : Platform} {P : World p → Type 0} where
  pub run-Keeps : (cmd : List String) → Keeps P (spawn cmd) → Keeps P (run p cmd)
  unfolding run
  run-Keeps cmd k = Keeps-bind (spawn cmd) _ k (λ e. ending (run_error cmd e))
    where
      ending : (o : Option Error) → Keeps P (raise_some p o)
      ending none = Keeps-pure tt
      ending (some e) = Keeps-raise e

  pub run_ok-Keeps : (cmd : List String) → Keeps P (spawn cmd) → Keeps P (run_ok p cmd)
  unfolding run_ok
  run_ok-Keeps cmd k = Keeps-bind (spawn cmd) _ k ending
    where
      ending : (e : Exit) → Keeps P (ended_well p e)
      ending (exited n) = Keeps-pure _
      ending (killed n) = Keeps-pure _
      ending timed_out = Keeps-raise _
      ending not_started = Keeps-raise _

  pub disable-Keeps :
      (k : String)
      → Keeps P (spawn (scale_to (tenant_ns k) "0"))
      → Keeps P (spawn (delete_ingress (tenant_ns k)))
      → Keeps P (disable_application_access p k)
  unfolding disable_application_access
  disable-Keeps k a b = search (keeps_rules, run_ok-Keeps)

  module _ (drop_role : Outputs → String → Exec p (Unit {0}))
      (sleeps : (n : ℕ) → Keeps P (sleep_for n))
      (drops : (o : Outputs) (k : String) → Keeps P (drop_role o k)) where
    rounds-Keeps :
        (rounds i attempts : ℕ) (last : Option Error) (o : Outputs) (k : String)
        → Keeps P (revoke_rounds p drop_role rounds i attempts last o k)
    unfolding revoke_rounds
    rounds-Keeps zero i attempts last o k = search keeps_rules
    rounds-Keeps (suc rounds) i attempts last o k = Keeps-catch (drop_role o k) _ (drops o k) (λ e.
        Keeps-bind _ _ (Keeps-if (ltb (i + 1) attempts) _ _ (sleeps _) (Keeps-pure tt))
          (λ _. rounds-Keeps rounds (i + 1) attempts (some e) o k))

    pub revoke-Keeps : (o : Outputs) (k : String) → Keeps P (revoke_postgres_role p drop_role o k)
    unfolding revoke_postgres_role
    revoke-Keeps o k = rounds-Keeps 3 0 3 none o k

    module _ (upserts : (k : String) (f : Fields) → Keeps P (store_upsert k f))
        (outputs : Keeps P tofu_outputs) (deletes : (k : String) → Keeps P (store_delete k))
        (spawns : (cmd : List String) → Keeps P (spawn cmd))
        (calls : (c : AwsCall) → Keeps P (aws_call c)) where
      gone-Keeps : (codes : List String) (r : AwsReply) → Keeps P (unless_gone p codes r)
      unfolding unless_gone
      gone-Keeps codes (done _) = Keeps-pure tt
      gone-Keeps codes (client_error code message) = search keeps_rules

      irsa-Keeps :
          (o : Outputs) (k : String) (arn : Option String) → Keeps P (delete_tenant_irsa p o k arn)
      unfolding delete_tenant_irsa
      irsa-Keeps o k arn = search (keeps_rules, calls, gone-Keeps)

      secret-Keeps :
          (o : Outputs) (k : String) (name : Option String)
          → Keeps P (delete_tenant_secret p o k name)
      unfolding delete_tenant_secret
      secret-Keeps o k name = search (keeps_rules, calls, gone-Keeps)

      identity-Keeps :
          (owner : Option Owner) (owned : Owned) (o : Outputs) (k : String)
          → Keeps P (remove_identity p drop_role owner owned o k)
      unfolding remove_identity
      identity-Keeps (some Owner.control_plane) owned o k =
          search (keeps_rules, irsa-Keeps, secret-Keeps, upserts) depth 9
      identity-Keeps _ owned o k = Keeps-pure tt

      live-Keeps : (ns : String) (live : Bool) → Keeps P (delete_if_live p ns live)
      unfolding delete_if_live
      live-Keeps ns true = run-Keeps (delete_ns ns) (spawns (delete_ns ns))
      live-Keeps ns false = Keeps-pure tt

      kubernetes-Keeps : (ns : String) → Keeps P (delete_kubernetes p ns)
      unfolding delete_kubernetes
      kubernetes-Keeps ns = search (keeps_rules, run_ok-Keeps, spawns, live-Keeps)

      rest-Keeps :
          (owned : Owned) (o : Outputs) (k : String) → Keeps P (remove_rest p drop_role owned o k)
      unfolding remove_rest
      rest-Keeps owned o k =
          search (keeps_rules, upserts, deletes, kubernetes-Keeps, identity-Keeps) depth 9

      teardown-Keeps : (owned : Owned) (k : String) → Keeps P (teardown p drop_role owned k)
      unfolding teardown
      teardown-Keeps owned k = Keeps-bind _ _ (disable-Keeps k (spawns _) (spawns _)) (λ _.
          Keeps-bind _ _ (upserts k _) (λ _.
            Keeps-bind _ _ outputs
              (λ o. Keeps-bind _ _ (revoke-Keeps o k) (λ _. rest-Keeps owned o k))))

      pub delete_tenant-Keeps : (k : String) → Keeps P (delete_tenant p drop_role k)
      unfolding delete_tenant fail_delete
      delete_tenant-Keeps k = search (keeps_rules, upserts, teardown-Keeps) depth 9

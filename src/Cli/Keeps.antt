-- ===== src/Cli/Keeps.antt =====
-- The registry's invariant under the commands of control-plane/cli.py.
use saas_ntier_lab.Prelude.{String, Bool, Option, none, some, List, [], ◌∷◌}
use saas_ntier_lab.Errors.{Result, ok, err, Error}
use saas_ntier_lab.Store.Invariant.{IsRegistry}
use saas_ntier_lab.Exec.{Platform, World, Exec}
use saas_ntier_lab.Exec.Keeps.{Keeps, Registered, registered_rules}
use saas_ntier_lab.Exec.Frame.{framed-Registered, store_list-Tabled}
use saas_ntier_lab.Adopt.Keeps.{adopt-Registered}
use saas_ntier_lab.Lifecycle.Suspending.Keeps.{suspend_tenant-Registered}
use saas_ntier_lab.Provision.Keeps.{provision-Registered}
use saas_ntier_lab.Reconcile.Keeps.{reconcile_one-Registered}
use saas_ntier_lab.Reconcile.Sweep.Keeps.{reconcile_all-Registered}
use saas_ntier_lab.Opening.Laws.{open_store-Registered}
use saas_ntier_lab.ControlPlane.{Setup}
use saas_ntier_lab.ControlPlane.Keeps.{
  defaults-IsSafe, subprocess_ns-Keeps, discover_active-Keeps, resuming-Registered,
  deleting-Registered,
}
use saas_ntier_lab.Cli.{
  Command, Ended, with_id, stopped, Shown, run_create, run_delete, run_get, run_suspend, run_resume,
  reconcile_every, reconcile_single, run_reconcile, run, main,
}

module _ (p : Platform) (s : Setup) where
  with_id-Registered :
      (r : Result String) (f : String → Exec p Ended)
      → ((k : String) → Keeps (Registered p) (f k))
      → Keeps (Registered p) (with_id p s r f)
  unfolding with_id
  with_id-Registered (ok k) f kept = kept k
  with_id-Registered (err e) f kept = search registered_rules

  stopped-Registered :
      (k : String) (other : Shown) (e : Error) → Keeps (Registered p) (stopped p s k other e)
  unfolding stopped
  stopped-Registered k other e = search registered_rules

  create-Registered :
      (tier : String) (infra : Bool) (k : String)
      → Keeps (Registered p) (run_create p s tier infra k)
  unfolding run_create
  create-Registered tier infra k =
      search (registered_rules, provision-Registered, stopped-Registered) depth 9

  delete-Registered : (k : String) → Keeps (Registered p) (run_delete p s k)
  unfolding run_delete
  delete-Registered k = search (registered_rules, deleting-Registered, stopped-Registered) depth 9

  get-Registered : (k : String) → Keeps (Registered p) (run_get p s k)
  unfolding run_get
  get-Registered k = search registered_rules

  suspend-Registered : (k : String) → Keeps (Registered p) (run_suspend p s k)
  unfolding run_suspend
  suspend-Registered k = search (registered_rules, suspend_tenant-Registered)

  resume-Registered : (k : String) → Keeps (Registered p) (run_resume p s k)
  unfolding run_resume
  resume-Registered k = search (registered_rules, resuming-Registered)

  every-Registered : Keeps (Registered p) (reconcile_every p s)
  unfolding reconcile_every
  every-Registered =
      search
        (
          registered_rules, reconcile_all-Registered, framed-Registered, defaults-IsSafe,
          subprocess_ns-Keeps,
        )
        depth 9

  single-Registered : (k : String) → Keeps (Registered p) (reconcile_single p s k)
  unfolding reconcile_single
  single-Registered k = search (registered_rules, reconcile_one-Registered, defaults-IsSafe) depth 9

  reconcile-Registered : (o : Option String) → Keeps (Registered p) (run_reconcile p s o)
  unfolding run_reconcile
  reconcile-Registered none = every-Registered
  reconcile-Registered (some raw) =
      search (registered_rules, every-Registered, with_id-Registered, single-Registered)

  run-Registered : (c : Command) → Keeps (Registered p) (run p s c)
  unfolding run
  run-Registered Command.discover =
      search (registered_rules, framed-Registered, discover_active-Keeps)
  run-Registered (Command.reconcile o) = reconcile-Registered o
  run-Registered (Command.adopt ids) = search (registered_rules, adopt-Registered)
  run-Registered Command.list = search (registered_rules, framed-Registered, store_list-Tabled)
  run-Registered (Command.get raw) = search (with_id-Registered, get-Registered)
  run-Registered (Command.create raw tier infra) = search (with_id-Registered, create-Registered)
  run-Registered (Command.suspend raw) = search (with_id-Registered, suspend-Registered)
  run-Registered (Command.resume raw) = search (with_id-Registered, resume-Registered)
  run-Registered (Command.delete raw) = search (with_id-Registered, delete-Registered)

  main-Registered : (c : Command) → Keeps (Registered p) (main p s c)
  unfolding main
  main-Registered c = search (registered_rules, open_store-Registered, run-Registered)

  -- The world after some commands, each run to its end.
  pub session : List Command → World p → World p
  unfolding main
  session [] w = w
  session (c ∷ cs) w = session cs (main p s c w).1

  -- Every run of a command, with the opening of the registry and the import in front of it, whatever the
  -- command's arguments, what the systems outside answer and however it ends, keeps
  -- the invariant of the registry, and so does any sequence of commands.
  pub session-IsRegistry :
      (cs : List Command) (w : World p) → IsRegistry w.table → IsRegistry (session cs w).table
  unfolding session
  session-IsRegistry [] w v = v
  session-IsRegistry (c ∷ cs) w v =
      session-IsRegistry cs (main p s c w).1 ((main-Registered c).at w v)

-- ===== src/Cli.antt =====
-- control-plane/cli.py: the commands of the command line, on what argparse has read. A command ends with
-- an exit code and what it prints, or with the exception that leaves `main`. `_wait` is called by nothing.
pub mod Keeps
pub mod Ends
use saas_ntier_lab.Prelude.{
  ℕ, String, Bool, not, Option, none, some, List, or_else, if◌then◌else◌, ◌==◌,
}
use saas_ntier_lab.Errors.{Result, ok, err, Error, is_control_plane}
use saas_ntier_lab.Ids.{validate_tenant_id}
use saas_ntier_lab.Store.{Row}
use saas_ntier_lab.Exec.{
  Platform, Exec, ◌>>=◌, ◌>>◌, pure, raise, catch, handle, continue, store_get, store_list,
}
use saas_ntier_lab.Opening.{open_store}
use saas_ntier_lab.Provision.{Order, provision}
use saas_ntier_lab.Lifecycle.{suspend_tenant}
use saas_ntier_lab.Adopt.{adopt_tenants}
use saas_ntier_lab.Reconcile.{Report, reconcile_one}
use saas_ntier_lab.Reconcile.Sweep.{Sweep, reconcile_all}
use saas_ntier_lab.ControlPlane.{
  Setup, Listing, defaults, subprocess_ns, discover_active, resuming, deleting,
}

-- The subcommands with their arguments: `create` has the tier and `--ensure-infra`.
pub data Command : Type 0 where
  discover list : Command
  reconcile : Option String → Command
  adopt : List String → Command
  get suspend resume delete : String → Command
  create : String → String → Bool → Command

-- What is printed, as the value that `json.dumps` is given: `message` is an object whose only key is
-- "error", `absent` the answer to `get` for an id with no row, `gone` the report of a deletion, and
-- `not_deleted` that of one that has failed and has left no row. `refused` is the text of `SystemExit`.
pub data Shown : Type 0 where
  listing : Listing → Shown
  report : Report → Shown
  sweep : Sweep → Shown
  rows : List Row → Shown
  row : Row → Shown
  null : Shown
  message : String → Shown
  absent gone refused : String → Shown
  not_deleted : String → String → Shown

pub record Ended : Type 0 where
  pub code : ℕ
  pub shown : Shown

abbrev pub ends : ℕ → Shown → Ended
ends code shown = record { code = code; shown = shown }

-- `store.get(tid)`, or another object if there is no row
abbrev pub row_or : Shown → Option Row → Shown
row_or other none = other
row_or other (some r) = Shown.row r

module _ (p : Platform) (s : Setup) where
  -- `_id` in front of a command
  pub with_id : Result String → (String → Exec p Ended) → Exec p Ended
  with_id (ok k) f = f k
  with_id (err e) f = pure (ends 1 (Shown.refused e.message))

  abbrev pub on_id : String → (String → Exec p Ended) → Exec p Ended
  on_id raw f = with_id (validate_tenant_id (some raw)) f

  -- An `except ControlPlaneError` that prints the row, or another object, and ends with 1.
  pub stopped : String → Shown → Error → Exec p Ended
  unfolding store_get
  stopped k other e =
      let printed : Exec p Ended = (do item ← store_get k; pure (ends 1 (row_or other item))) in
      if is_control_plane e.kind then printed else raise e

  abbrev pub order_of : String → Bool → Order
  order_of tier infra = record {
    tier = tier;
    ensure_infra = infra;
    ensure_identity = not infra;
    my_ip = p.environ "MY_IP";
  }

  -- What follows the `try` reads the registry, which raises nothing.
  unfoldable pub run_create : String → Bool → String → Exec p Ended
  unfolding provision stopped store_get
  run_create tier infra k =
      let made : Exec p Ended = (do
        provision p s.chart_dir s.guardrails_dir s.tofu_dir k (order_of tier infra)
        item ← store_get k
        pure (ends 0 (row_or Shown.null item))) in
      catch made (λ e. stopped k (Shown.message e.message) e)

  unfoldable pub run_delete : String → Exec p Ended
  unfolding deleting stopped
  run_delete k =
      let removed : Exec p Ended = (do deleting p s k; pure (ends 0 (Shown.gone k))) in
      catch removed (λ e. stopped k (Shown.not_deleted k e.message) e)

  unfoldable pub run_get : String → Exec p Ended
  unfolding store_get
  run_get k = do
    item ← store_get k
    pure (elim item [ none ↦ ends 1 (Shown.absent k) | some r ↦ ends 0 (Shown.row r) ])

  unfoldable pub run_suspend : String → Exec p Ended
  unfolding suspend_tenant
  run_suspend k = do r ← suspend_tenant p k; pure (ends 0 (Shown.row r))

  unfoldable pub run_resume : String → Exec p Ended
  unfolding resuming store_get
  run_resume k = do _ ← resuming p s k; item ← store_get k; pure (ends 0 (row_or Shown.null item))

  pub reconcile_every : Exec p Ended
  unfolding reconcile_all subprocess_ns defaults
  reconcile_every = do
    o ← reconcile_all (defaults p s) (subprocess_ns p s)
    pure (ends 0 (Shown.sweep o))

  pub reconcile_single : String → Exec p Ended
  unfolding reconcile_one defaults
  reconcile_single k = do o ← reconcile_one (defaults p s) k; pure (ends 0 (Shown.report o))

  -- `if args.tenant`
  pub run_reconcile : Option String → Exec p Ended
  unfolding reconcile_every reconcile_single
  run_reconcile none = reconcile_every
  run_reconcile (some raw) = if raw == "" then reconcile_every else on_id raw reconcile_single

  -- The command
  unfoldable pub run : Command → Exec p Ended
  unfolding run_reconcile run_create run_delete run_get run_suspend run_resume with_id adopt_tenants
      discover_active store_list
  run Command.discover = do o ← discover_active p s; pure (ends 0 (Shown.listing o))
  run (Command.reconcile raw) = run_reconcile raw
  run (Command.adopt ids) = do
    done ← adopt_tenants p s.tofu_dir s.pages ids
    pure (ends 0 (Shown.rows done))
  run Command.list = do all ← store_list; pure (ends 0 (Shown.rows all))
  run (Command.get raw) = on_id raw run_get
  run (Command.create raw tier infra) = on_id raw (run_create tier infra)
  run (Command.suspend raw) = on_id raw run_suspend
  run (Command.resume raw) = on_id raw run_resume
  run (Command.delete raw) = on_id raw run_delete

  -- `main`: `_store()` in front of the command
  unfoldable pub main : Command → Exec p Ended
  unfolding open_store run
  main c = open_store p s.data_dir s.entries >> run c

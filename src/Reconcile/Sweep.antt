-- ===== src/Reconcile/Sweep.antt =====
-- `reconcile_all` of control-plane/reconcile.py: the sweep over the whole registry.
pub mod Failures
pub mod Unmanaged
pub mod Keeps
pub mod Ends
use saas_ntier_lab.Prelude.{
  String, Bool, true, false, not, ◌&&◌, Option, none, some, List, [], ◌∷◌, elem, starts_with, ◌<>◌,
  if◌then◌else◌,
}
use saas_ntier_lab.Errors.{Result, ok, err, Error, is_control_plane, retryable}
use saas_ntier_lab.Store.{Row, Fields, Status, Table, no_fields}
use saas_ntier_lab.Store
use saas_ntier_lab.Exec.{
  Platform, World, Exec, ◌>>=◌, ◌>>◌, pure, raise, catch, continue, handle, store_list,
  store_upsert,
}
use saas_ntier_lab.Reconcile.{Handlers, Report, reconcile_one}

-- An entry of `results`: a report, or the id, the error and whether it is retryable, under the
-- status "DRIFT".
pub data Entry : Type 0 where
  reported : Report → Entry
  drifted : String → String → Bool → Entry

-- The write of the `except ControlPlaneError` of the loop; `row` is from the list made before it.
abbrev pub swept_fields : Row → Error → Fields
swept_fields row e = record no_fields {
  status = some (if not (retryable e.kind) then Status.drift else row.status);
  error = some (some e.message);
}

-- `list_unmanaged_namespaces`, of the namespaces of the cluster and the rows.
pub known_ns : List Row → List String
known_ns [] = []
known_ns (r ∷ rows) = ("tenant-" <> r.id) ∷ known_ns rows

pub unmanaged : List String → List String → List String
unmanaged [] known = []
unmanaged (n ∷ ns) known =
    let rest = unmanaged ns known in
    if starts_with n "tenant-" && not (elem n known) then n ∷ rest else rest

unfoldable pub list_unmanaged_namespaces : List String → List Row → List String
unfolding known_ns unmanaged starts_with
list_unmanaged_namespaces ns rows = unmanaged ns (known_ns rows)

pub record Sweep : Type 0 where
  pub tenants : List Entry
  pub unmanaged_namespaces : List String

module _ {p : Platform} (h : Handlers p) where
  pub sweep_failure : Row → Error → Exec p Entry
  sweep_failure row e =
      let noted : Exec p Entry = (do
        _ ← store_upsert row.id (swept_fields row e)
        pure (drifted row.id e.message (retryable e.kind))) in
      if is_control_plane e.kind then noted else raise e

  -- One round of the loop.
  unfoldable pub sweep_one : Row → Exec p Entry
  unfolding sweep_failure
  sweep_one row = catch (do r ← reconcile_one h row.id; pure (reported r)) (sweep_failure row)

  pub sweep_rows : List Row → Exec p (List Entry)
  unfolding sweep_one
  sweep_rows [] = pure []
  sweep_rows (row ∷ rows) = do e ← sweep_one row; rest ← sweep_rows rows; pure (e ∷ rest)

  unfoldable pub reconcile_all : Exec p (List String) → Exec p Sweep
  unfolding sweep_rows
  reconcile_all subprocess_ns = do
    known ← store_list
    ns ← subprocess_ns
    rows ← store_list
    entries ← sweep_rows rows
    pure (record { tenants = entries; unmanaged_namespaces = list_unmanaged_namespaces ns known })

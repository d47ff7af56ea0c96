-- ===== src/Opening.antt =====
-- Opening the registry of control-plane/store.py: `TenantStore.__init__`. The directory and the table
-- are made before; the table is empty at first, and an older registry in the file beside it is
-- imported. `entries` is `json.loads` and the "tenants" of what it gives, and `none` is a text that is
-- no JSON.
pub mod Laws
use saas_ntier_lab.Prelude.{String, Bool, true, false, Option, none, some, List, [], ◌∷◌}
use saas_ntier_lab.Errors.{ok}
use saas_ntier_lab.Store.{Table}
use saas_ntier_lab.Store.Legacy.{Meta, import_entries}
use saas_ntier_lab.Exec.{Platform, Exec, ◌>>=◌, pure, continue, is_file, read_text}
use saas_ntier_lab.Onboard.{path_join}

-- `SELECT COUNT(*) AS c FROM tenants`, and whether it is 0
abbrev pub no_rows : Table → Bool
no_rows [] = true
no_rows (r ∷ t) = false

module _ (p : Platform) (data_dir : String) (entries : String → Option (List (String × Meta))) where
  abbrev pub legacy_path : String
  legacy_path = path_join data_dir "tenants.json"

  pub is_empty : Exec p Bool
  is_empty w = (ok (no_rows w.table), w)

  -- The loop, in the transaction
  pub insert_all : List (String × Meta) → Exec p (Unit {0})
  unfolding import_entries
  insert_all es w =
      let (now, x) = p.utcnow w.ext in
      (ok tt, record { table = import_entries now es w.table; ext = x; log = w.log })

  pub import_decoded : Option (List (String × Meta)) → Exec p (Unit {0})
  unfolding insert_all
  import_decoded none = pure tt
  import_decoded (some es) = insert_all es

  pub import_if_empty : Bool → Exec p (Unit {0})
  unfolding import_decoded read_text
  import_if_empty false = pure tt
  import_if_empty true = do text ← read_text legacy_path; import_decoded (entries text)

  pub import_if_there : Bool → Exec p (Unit {0})
  unfolding is_empty import_if_empty
  import_if_there false = pure tt
  import_if_there true = is_empty >>= import_if_empty

  -- `__init__`, with `_import_legacy_json`
  unfoldable pub open_store : Exec p (Unit {0})
  unfolding is_file import_if_there path_join
  open_store = is_file legacy_path >>= import_if_there

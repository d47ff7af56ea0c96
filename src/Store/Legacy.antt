-- ===== src/Store/Legacy.antt =====
-- `_import_legacy_json` of control-plane/store.py: the rows of an older registry, which was one JSON
-- file, go into an empty table. An entry's columns are texts or null there.
pub mod Laws
pub mod Columns
use saas_ntier_lab.Prelude.{String, Option, none, some, List, [], ◌∷◌, or_else, ◌==◌, if◌then◌else◌}
use saas_ntier_lab.Errors.{Result, ok, err}
use saas_ntier_lab.Ids.{validate_tenant_id}
use saas_ntier_lab.Store.Rows.{Row, Status, Desired, Owner, infer_desired}
use saas_ntier_lab.Store.{Table, get, put}

-- An entry of "tenants"; `none` is a key that is missing, or null.
pub record Meta : Type 0 where
  pub status : Option String
  pub tier : Option String
  pub endpoint : Option String
  pub path_prefix : Option String
  pub owned_by : Option String
  pub secret_name : Option String
  pub irsa_role_arn : Option String
  pub error : Option String
  pub delete_step : Option String
  pub created_at : Option String
  pub updated_at : Option String

-- The text of a column, read back.
unfoldable pub status_of_text : String → Status
status_of_text s =
    if s == "PROVISIONING"
    then Status.provisioning
    else if s == "ACTIVE"
    then Status.active
    else if s == "SUSPENDED"
    then Status.suspended
    else if s == "DELETING"
    then Status.deleting
    else if s == "DELETE_FAILED"
    then Status.delete_failed
    else if s == "FAILED"
    then Status.failed
    else if s == "DRIFT"
    then Status.drift
    else Status.other s

unfoldable pub owner_of_text : String → Owner
owner_of_text s =
    if s == "control_plane"
    then Owner.control_plane
    else if s == "opentofu"
    then Owner.opentofu
    else Owner.other s

abbrev pub owner_or_null : Option String → Option Owner
owner_or_null none = none
owner_or_null (some s) = some (owner_of_text s)

-- The values of the `INSERT OR IGNORE`, for a valid tenant id
unfoldable pub legacy_row : String → String → Meta → Row
unfolding status_of_text owner_of_text
legacy_row now tid meta =
    let status : Status = status_of_text (or_else meta.status "ACTIVE") in
    record {
      id = tid;
      desired_status = infer_desired status;
      status = status;
      tier = some (or_else meta.tier "standard");
      endpoint = meta.endpoint;
      path_prefix = meta.path_prefix;
      owned_by = owner_or_null meta.owned_by;
      secret_name = meta.secret_name;
      irsa_role_arn = meta.irsa_role_arn;
      error = meta.error;
      delete_step = meta.delete_step;
      observed_json = none;
      version = 1;
      created_at = or_else meta.created_at now;
      updated_at = or_else meta.updated_at now;
    }

-- `INSERT OR IGNORE`
pub insert_absent : Row → Table → Option Row → Table
unfolding put
insert_absent r t none = put r t
insert_absent r t (some old) = t

pub insert_or_ignore : Row → Table → Table
unfolding get insert_absent
insert_or_ignore r t = insert_absent r t (get t r.id)

pub insert_valid : String → Result String → Meta → Table → Table
unfolding legacy_row insert_or_ignore
insert_valid now (ok tid) meta t = insert_or_ignore (legacy_row now tid meta) t
insert_valid now (err e) meta t = t

-- The loop over the entries
unfoldable pub import_entries : String → List (String × Meta) → Table → Table
unfolding insert_valid validate_tenant_id
import_entries now [] t = t
import_entries now ((tid, meta) ∷ entries) t =
    import_entries now entries (insert_valid now (validate_tenant_id (some tid)) meta t)

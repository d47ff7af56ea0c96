-- ===== src/Store/Rows.antt =====
-- The rows of the `tenants` table of control-plane/store.py, and what `upsert` makes of a row.
use saas_ntier_lab.Prelude.{
  ℕ, String, Bool, true, false, Option, none, some, ◌==◌, or_else, if◌then◌else◌,
}

-- `STATUSES`. The column is not constrained, and `other` is any other text.
pub data Status : Type 0 where
  provisioning active suspended deleting delete_failed failed drift : Status
  other : String → Status

-- The text of the column.
abbrev pub status_text : Status → String
status_text Status.provisioning = "PROVISIONING"
status_text Status.active = "ACTIVE"
status_text Status.suspended = "SUSPENDED"
status_text Status.deleting = "DELETING"
status_text Status.delete_failed = "DELETE_FAILED"
status_text Status.failed = "FAILED"
status_text Status.drift = "DRIFT"
status_text (Status.other s) = s

-- `DESIRED_STATUSES`, and any other text
pub data Desired : Type 0 where
  active suspended gone : Desired
  other : String → Desired

-- The text of the column.
abbrev pub desired_text : Desired → String
desired_text Desired.active = "ACTIVE"
desired_text Desired.suspended = "SUSPENDED"
desired_text Desired.gone = "GONE"
desired_text (Desired.other s) = s

-- `owned_by`: who created the tenant's secret and role
pub data Owner : Type 0 where
  control_plane opentofu : Owner
  other : String → Owner

-- `desired_status in DESIRED_STATUSES`
abbrev pub is_desired : Desired → Bool
is_desired (Desired.other s) = false
is_desired _ = true

-- The columns; `none` is NULL.
pub record Row : Type 0 where
  pub id : String
  pub desired_status : Desired
  pub status : Status
  pub tier : Option String
  pub endpoint : Option String
  pub path_prefix : Option String
  pub owned_by : Option Owner
  pub secret_name : Option String
  pub irsa_role_arn : Option String
  pub error : Option String
  pub delete_step : Option String
  pub observed_json : Option String
  pub version : ℕ
  pub created_at : String
  pub updated_at : String

-- The keyword arguments of `upsert`: `none` is an argument that the call leaves out, and
-- `some none` the argument `None`.
pub record Fields : Type 0 where
  pub desired_status : Option Desired
  pub status : Option Status
  pub tier : Option (Option String)
  pub endpoint : Option (Option String)
  pub path_prefix : Option (Option String)
  pub owned_by : Option (Option Owner)
  pub secret_name : Option (Option String)
  pub irsa_role_arn : Option (Option String)
  pub error : Option (Option String)
  pub delete_step : Option (Option String)
  pub observed_json : Option (Option String)

abbrev pub no_fields : Fields
no_fields = record {
  desired_status = none;
  status = none;
  tier = none;
  endpoint = none;
  path_prefix = none;
  owned_by = none;
  secret_name = none;
  irsa_role_arn = none;
  error = none;
  delete_step = none;
  observed_json = none;
}

-- What a key of a dictionary is after `update`.
abbrev pub given : {A : Type 0} → Option A → A → A
given none old = old
given (some new) old = new

-- `current.update(fields)`
unfoldable pub merge : Fields → Row → Row
merge f r = record {
  id = r.id;
  desired_status = given f.desired_status r.desired_status;
  status = given f.status r.status;
  tier = given f.tier r.tier;
  endpoint = given f.endpoint r.endpoint;
  path_prefix = given f.path_prefix r.path_prefix;
  owned_by = given f.owned_by r.owned_by;
  secret_name = given f.secret_name r.secret_name;
  irsa_role_arn = given f.irsa_role_arn r.irsa_role_arn;
  error = given f.error r.error;
  delete_step = given f.delete_step r.delete_step;
  observed_json = given f.observed_json r.observed_json;
  version = r.version;
  created_at = r.created_at;
  updated_at = r.updated_at;
}

-- `fields.get("status") or "PROVISIONING"`
abbrev pub status_or_provisioning : Option Status → Status
status_or_provisioning none = Status.provisioning
status_or_provisioning (some (Status.other s)) =
    if s == "" then Status.provisioning else Status.other s
status_or_provisioning (some s) = s

-- The desired status of a new row that is given none.
abbrev pub infer_desired : Status → Desired
infer_desired Status.suspended = Desired.suspended
infer_desired Status.deleting = Desired.gone
infer_desired Status.delete_failed = Desired.gone
infer_desired _ = Desired.active

unfoldable pub desired_or_inferred : Option Desired → Status → Desired
desired_or_inferred none s = infer_desired s
desired_or_inferred (some d) s = d

-- The `item` that `upsert` inserts.
unfoldable pub fresh : String → String → Fields → Row
unfolding desired_or_inferred
fresh now tenant_id f =
    let status : Status = status_or_provisioning f.status in
    record {
      id = tenant_id;
      desired_status = desired_or_inferred f.desired_status status;
      status = status;
      tier = some (or_else (given f.tier none) "standard");
      endpoint = given f.endpoint none;
      path_prefix = given f.path_prefix none;
      owned_by = given f.owned_by none;
      secret_name = given f.secret_name none;
      irsa_role_arn = given f.irsa_role_arn none;
      error = given f.error none;
      delete_step = given f.delete_step none;
      observed_json = given f.observed_json none;
      version = 1;
      created_at = now;
      updated_at = now;
    }

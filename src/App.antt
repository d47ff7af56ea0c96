-- ===== src/App.antt =====
-- control-plane/app.py: the HTTP API. A handler is a function of the server's state to a response and
-- the state that it leaves. The state is that of the procedures, with the jobs that run in threads of
-- their own: `_inflight` is the set of the tenant ids of `jobs`, since an id is added to it when its
-- thread is started, and discarded when the thread ends. Routing and JSON are Flask's.
pub mod Handlers
use saas_ntier_lab.Prelude.{
  ℕ, String, Bool, true, false, ◌&&◌, not, Option, none, some, List, [], ◌∷◌, elem, lower, map,
  ◌==◌, if◌then◌else◌,
}
use saas_ntier_lab.Errors.{Result, ok, err, Error, Kind, http_status}
use saas_ntier_lab.Store.{Row, Status, Desired, Owner}
use saas_ntier_lab.Store
use saas_ntier_lab.Exec.{Platform, World, Exec}
use saas_ntier_lab.Reconcile.{Report}
use saas_ntier_lab.Reconcile.Sweep.{Sweep}

-- `_public`: the columns that a response shows; `none` is JSON's null.
pub record Public : Type 0 where
  pub id : String
  pub desired_status : Option Desired
  pub status : Option Status
  pub tier : Option String
  pub endpoint : Option String
  pub path_prefix : Option String
  pub owned_by : Option Owner
  pub secret_name : Option String
  pub error : Option String
  pub delete_step : Option String
  pub version : Option ℕ
  pub created_at : Option String
  pub updated_at : Option String

abbrev pub public : Row → Public
public r = record {
  id = r.id;
  desired_status = some r.desired_status;
  status = some r.status;
  tier = r.tier;
  endpoint = r.endpoint;
  path_prefix = r.path_prefix;
  owned_by = r.owned_by;
  secret_name = r.secret_name;
  error = r.error;
  delete_step = r.delete_step;
  version = some r.version;
  created_at = some r.created_at;
  updated_at = some r.updated_at;
}

-- `_public({"id": tenant_id, "status": status})`
abbrev pub public_stub : String → Status → Public
public_stub tenant_id status = record {
  id = tenant_id;
  desired_status = none;
  status = some status;
  tier = none;
  endpoint = none;
  path_prefix = none;
  owned_by = none;
  secret_name = none;
  error = none;
  delete_step = none;
  version = none;
  created_at = none;
  updated_at = none;
}

abbrev pub public_or : String → Status → Option Row → Public
public_or tenant_id status none = public_stub tenant_id status
public_or tenant_id status (some r) = public r

-- The body of a response: a tenant, the tenants, that there is no tenant of an id, what reconciling
-- reports, or an error with its message, and the tenant's id if it is named.
pub data Body : Type 0 where
  tenant : Public → Body
  tenants : List Public → Body
  not_found : String → Body
  reconciled : Report → Body
  swept : Sweep → Body
  failure : String → String → Option String → Body

pub record Response : Type 0 where
  pub code : ℕ
  pub body : Body

abbrev pub respond : ℕ → Body → Response
respond code body = record { code = code; body = body }

-- A JSON value in a request: `other` is one that is no string and no boolean, with its truth value.
pub data Json : Type 0 where
  text : String → Json
  boolean : Bool → Json
  other : Bool → Json

-- `_flag(body, key, default)`, of the value under the key
unfoldable pub flag : Option Json → Bool → Bool
unfolding lower
flag none default = default
flag (some (Json.text s)) default = elem (lower s) ("1" ∷ "true" ∷ "yes" ∷ [])
flag (some (Json.boolean b)) default = b
flag (some (Json.other b)) default = b

-- The function of a job: provisioning, with the tier and the flags `ensure_infra_flag` and
-- `ensure_identity_flag`, resuming, or deleting.
pub data Job : Type 0 where
  provisioning : String → Bool → Bool → Job
  resuming : Job
  deleting : Job

pub record Server (p : Platform) : Type 0 where
  pub world : World p
  pub jobs : List (String × Job)

abbrev pub job_id : String × Job → String
job_id (k, job) = k

-- `tenant_id in _inflight`
abbrev pub in_flight : String → List (String × Job) → Bool
in_flight k jobs = elem k (map job_id jobs)

-- `type(exc).__name__` of a ControlPlaneError
abbrev pub class_name : Kind → String
class_name Kind.control_plane = "ControlPlaneError"
class_name Kind.validation = "ValidationError"
class_name Kind.conflict = "ConflictError"
class_name Kind.dependency = "DependencyError"
class_name Kind.aws_retryable = "AWSRetryableError"
class_name Kind.kubernetes_retryable = "KubernetesRetryableError"
class_name Kind.permanent = "PermanentProvisioningError"
class_name _ = "Exception"

-- `_cp_error`; any other exception is not handled, and stays an error.
abbrev coded : Error → Option ℕ → Result Response
coded e none = err e
coded e (some code) = ok (respond code (Body.failure (class_name e.kind) e.message none))

unfoldable pub cp_error : Error → Result Response
cp_error e = coded e (http_status e.kind)

abbrev pub Serve : Platform → Type 0
Serve p = Server p → Response × Server p

module _ {p : Platform} where
  -- `_start_job`: the response shows the stored row, and the job is started unless one is in flight.
  unfoldable pub start_job : String → Status → Job → Serve p
  start_job tenant_id status job s =
      let shown : Response =
        respond 202
          (Body.tenant (public_or tenant_id status (Store.get s.world.table tenant_id))) in
      if in_flight tenant_id s.jobs
      then (shown, s)
      else (shown, record s { jobs = (tenant_id, job) ∷ s.jobs })

-- ===== src/Examples.antt =====
-- Concrete inputs: a platform on which every call succeeds, some rows, and runs of the procedures.
pub mod Registry
pub mod Teardown
pub mod Reconciling
pub mod Api
pub mod Serving
pub mod Lab
pub mod Suspending
pub mod Observing
pub mod Provisioning
pub mod Resuming
pub mod Adopting
pub mod Commands
pub mod Starting
use saas_ntier_lab.Prelude.{ℕ, ◌+◌, refl, none, some, false, List, [], ◌∷◌}
use saas_ntier_lab.Errors.{ok}
use saas_ntier_lab.Ids.{tenant_id_re}
use saas_ntier_lab.Ids.Grammar.{IsTenantId, tenant_id_re-IsTenantId}
use saas_ntier_lab.Store.{Row, Table, Status, Desired, Owner}
use saas_ntier_lab.Exec.{Platform, World, Outputs, Exit, AwsReply}

abbrev pub outputs : Outputs
outputs = record {
  aws_region = none;
  name_prefix = some "lab";
  platform_tenant_id = some "a";
  migrator_irsa_role_arn = some "arn:aws:iam::1:role/migrator";
  rds_secret_name = some "lab/rds/master";
  ingress_mode = none;
  alb_url = none;
  tenant_ids = "a" ∷ [];
  tenant_irsa_role_arns = [];
  tenant_secret_names = [];
  rds_host = some "db";
  oidc_provider_arn = some "arn:aws:iam::1:oidc-provider/x";
  oidc_provider_url = some "oidc/x";
  alb_ingress_group = none;
  public_subnet_cidrs = "10.0.0.0/24" ∷ [];
  private_subnet_cidrs = "10.0.1.0/24" ∷ [];
  my_ip_cidr = none;
  alb_logs_bucket = none;
  tenant_node_ports = [];
}

-- Every command and every AWS call succeeds; the state is a counter.
abbrev pub calm : Platform
calm = record {
  Ext = ℕ;
  utcnow = λ x. ("now", x + 1);
  now = λ x. (x, x + 1);
  capture = λ cmd x. ((Exit.exited 0, "host"), x + 1);
  feed = λ cmd text x. (Exit.exited 0, x + 1);
  read_file = λ path x. (ok "", x + 1);
  write_file = λ path text x. (ok tt, x + 1);
  file_exists = λ path x. (false, x + 1);
  fetch = λ url x. (ok "", x + 1);
  which = λ name x. (some name, x + 1);
  choice = λ s x. ("a", x + 1);
  sleep = λ n x. x + n;
  subprocess = λ cmd x. (Exit.exited 0, x + 1);
  aws = λ c x. (
    AwsReply.done (record {
      arn = "arn:aws:iam::1:role/new";
      deleted = false;
      names = [];
      next_token = none;
    }),
    x + 1,
  );
  tofu_output = λ x. (ok outputs, x + 1);
  environ = λ name. none;
}

abbrev pub acme : Row
acme = record {
  id = "acme";
  desired_status = Desired.active;
  status = Status.active;
  tier = some "standard";
  endpoint = none;
  path_prefix = none;
  owned_by = some Owner.control_plane;
  secret_name = some "lab/rds/tenant-acme";
  irsa_role_arn = some "arn:aws:iam::1:role/lab-tenant-acme";
  error = none;
  delete_step = none;
  observed_json = none;
  version = 3;
  created_at = "then";
  updated_at = "then";
}

abbrev pub globex : Row
globex = record acme {
  id = "globex";
  status = Status.suspended;
  desired_status = Desired.suspended;
}

abbrev pub rows : Table
rows = globex ∷ acme ∷ []

abbrev pub world : World calm
world = record { table = rows; ext = 0; log = [] }

pub acme-IsTenantId : IsTenantId "acme"
unfolding tenant_id_re
acme-IsTenantId = (tenant_id_re-IsTenantId "acme").0 refl

pub globex-IsTenantId : IsTenantId "globex"
unfolding tenant_id_re
globex-IsTenantId = (tenant_id_re-IsTenantId "globex").0 refl

pub initech-IsTenantId : IsTenantId "initech"
unfolding tenant_id_re
initech-IsTenantId = (tenant_id_re-IsTenantId "initech").0 refl

-- ===== src/Provision.antt =====
-- control-plane/provisioner.py: `provision`. (`_cp_identities` is `cp_identities` of AwsIdentity.)
pub mod Outcome
pub mod Active
pub mod Keeps
use saas_ntier_lab.Prelude.{
  ℕ, String, Bool, true, false, not, ◌&&◌, Option, none, some, List, [], ◌∷◌, elem, ◌==◌, ◌<>◌,
  or_else, repr, lookup, insert, rstrip_slash, if◌then◌else◌,
}
use saas_ntier_lab.Errors.{Result, ok, err, Error, Kind, is_control_plane}
use saas_ntier_lab.Ids.{validate_tenant_id}
use saas_ntier_lab.Store.{Row, Fields, Status, Desired, Owner, no_fields}
use saas_ntier_lab.Exec.{
  Platform, Exec, Outputs, ◌>>=◌, ◌>>◌, pure, raise, catch, handle, continue, lift, store_upsert,
  store_list, tofu_outputs,
}
use saas_ntier_lab.AwsIdentity.{Identity, IdentityMaps, merge_identity_maps, cp_identities}
use saas_ntier_lab.Identity.{Made, ensure_tenant_identity}
use saas_ntier_lab.Infra.{ensure_infra}
use saas_ntier_lab.Onboard.{
  onboard_error, require_list, uses_controller, node_ip, wait_ingress_hostname, write_alb_url,
}
use saas_ntier_lab.Onboard.Install.{Maps, onboard, platform_tenant, first_or_a}
use saas_ntier_lab.Shell.{error_of}

-- The keyword arguments of `provision`
pub record Order : Type 0 where
  pub tier : String
  pub ensure_infra : Bool
  pub ensure_identity : Bool
  pub my_ip : Option String

abbrev pub default_order : String → Order
default_order tier = record {
  tier = tier;
  ensure_infra = false;
  ensure_identity = true;
  my_ip = none;
}

abbrev pub provisioning_fields : String → Fields
provisioning_fields tier = record no_fields {
  desired_status = some Desired.active;
  status = some Status.provisioning;
  tier = some (some tier);
  error = some none;
}

abbrev pub identity_fields : String → Made → Fields
identity_fields tier made = record (provisioning_fields tier) {
  owned_by = some (some made.owned_by);
  secret_name = some made.secret_name;
  irsa_role_arn = some made.irsa_role_arn;
}

-- `f"{alb}/tenant-{tenant_id}" if alb else None`
abbrev pub endpoint_of : String → String → Option String
endpoint_of alb tenant_id = if alb == "" then none else some (alb <> "/tenant-" <> tenant_id)

abbrev pub active_fields : String → String → String → Made → Fields
active_fields tier tenant_id alb made = record (identity_fields tier made) {
  status = some Status.active;
  endpoint = some (endpoint_of alb tenant_id);
  path_prefix = some (some ("/tenant-" <> tenant_id));
}

abbrev pub failed_fields : String → Error → Fields
failed_fields tier e = record no_fields {
  desired_status = some Desired.active;
  status = some Status.failed;
  tier = some (some tier);
  error = some (some e.message);
}

-- The error that `provision` raises: a `ControlPlaneError` as it is, and any other as a
-- `PermanentProvisioningError` with its text.
abbrev pub as_control_plane : Error → Error
as_control_plane e = if is_control_plane e.kind then e else error_of Kind.permanent e.message

abbrev pub opentofu_made : Option String → Option String → Made
opentofu_made secret role = record {
  secret_name = secret;
  irsa_role_arn = role;
  owned_by = Owner.opentofu;
}

abbrev pub not_in_maps : String → Error
not_in_maps tenant_id = onboard_error (
    "tenant "
    <> repr tenant_id
    <> " missing from tofu identity maps; "
    <> "POST with ensure_identity=true (default) or ensure_infra=true")

-- The identity of the tofu maps, which must have it.
pub made_of_maps : String → Option String → Option String → Result Made
made_of_maps tenant_id (some secret) (some role) = ok (opentofu_made (some secret) (some role))
made_of_maps tenant_id _ _ = err (not_in_maps tenant_id)

-- `extra[tenant_id] = identity` of the dict of identities, if the control plane owns it
abbrev pub identity_of_made : Made → Identity
identity_of_made made = record {
  secret_name = made.secret_name;
  irsa_role_arn = made.irsa_role_arn;
}

pub with_made : String → Made → List (String × Identity) → List (String × Identity)
unfolding insert
with_made tenant_id made extra = elim made.owned_by [
  | Owner.control_plane ↦ insert tenant_id (identity_of_made made) extra
  | _ ↦ extra
]

-- The identities, as keyword arguments
abbrev pub maps_of : IdentityMaps → Maps
maps_of merged = record {
  ids = some merged.ids;
  irsa = some merged.irsa;
  secrets = some merged.secrets;
}

module _ (p : Platform) (chart_dir guardrails_dir tofu_dir : String) where
  -- The outputs and the identity, by the two flags
  pub identity_from_maps : String → Outputs → Exec p Made
  unfolding require_list made_of_maps lookup
  identity_from_maps tenant_id o = do
    secrets ← lift (require_list "tenant_secret_names" o.tenant_secret_names)
    roles ← lift (require_list "tenant_irsa_role_arns" o.tenant_irsa_role_arns)
    lift (made_of_maps tenant_id (lookup tenant_id secrets) (lookup tenant_id roles))

  pub identity_by : Bool → String → Outputs → Exec p Made
  unfolding ensure_tenant_identity identity_from_maps
  identity_by true tenant_id o = ensure_tenant_identity p o tenant_id
  identity_by false tenant_id o = identity_from_maps tenant_id o

  pub identity_for : Order → String → Exec p (Outputs × Made)
  unfolding ensure_infra lookup tofu_outputs identity_by
  identity_for order tenant_id =
      let by_infra : Exec p (Outputs × Made) = (do
        o ← ensure_infra p tofu_dir tenant_id order.my_ip
        pure (
          o,
          opentofu_made (lookup tenant_id o.tenant_secret_names)
              (lookup tenant_id o.tenant_irsa_role_arns),
        )) in
      let by_outputs : Exec p (Outputs × Made) = (do
        o ← tofu_outputs
        made ← identity_by order.ensure_identity tenant_id o
        pure (o, made)) in
      if order.ensure_infra then by_infra else by_outputs

  -- The platform's tenant is onboarded before another tenant.
  pub onboard_first : String → String → Outputs → String → Maps → Exec p (Unit {0})
  unfolding onboard
  onboard_first first tenant_id o ip maps =
      if tenant_id == first then pure tt else onboard p chart_dir guardrails_dir first o ip maps

  -- `alb`
  pub load_balancer : String → Outputs → Bool → Exec p String
  unfolding wait_ingress_hostname write_alb_url rstrip_slash
  load_balancer tenant_id o true = do
    host ← wait_ingress_hostname p ("tenant-" <> tenant_id) "test-app" 600
    write_alb_url p tofu_dir host
  load_balancer tenant_id o false = pure (rstrip_slash (or_else o.alb_url ""))

  -- The body of the `try`, from the identity on.
  pub release : Order → String → Outputs → Made → Exec p Row
  unfolding cp_identities merge_identity_maps with_made node_ip onboard_first onboard load_balancer
      store_upsert store_list
  release order tenant_id o made = do
    _ ← store_upsert tenant_id (identity_fields order.tier made)
    rows ← store_list
    let merged = merge_identity_maps o (with_made tenant_id made (cp_identities rows))
    ip ← node_ip p
    onboard_first (platform_tenant o merged.ids) tenant_id o ip (maps_of merged)
    onboard p chart_dir guardrails_dir tenant_id o ip (maps_of merged)
    alb ← load_balancer tenant_id o (uses_controller o)
    store_upsert tenant_id (active_fields order.tier tenant_id alb made)

  -- The body of the `try`
  pub provision_body : Order → String → Exec p Row
  unfolding identity_for release
  provision_body order tenant_id = do
    found ← identity_for order tenant_id
    release order tenant_id found.0 found.1

  -- The two `except` clauses
  pub fail_provision : String → String → Error → Exec p Row
  unfolding store_upsert
  fail_provision tier tenant_id e = do
    _ ← store_upsert tenant_id (failed_fields tier e)
    raise (as_control_plane e)

  unfoldable pub provision : String → Order → Exec p (Unit {0})
  unfolding provision_body fail_provision store_upsert
  provision tenant_id order = do
    k ← lift (validate_tenant_id (some tenant_id))
    _ ← store_upsert k (provisioning_fields order.tier)
    _ ← catch (provision_body order k) (fail_provision order.tier k)
    pure tt

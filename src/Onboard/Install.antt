-- ===== src/Onboard/Install.antt =====
-- `onboard` and `onboard_tenant` of helm/test-app/onboard_tenant.py: installing the release of a tenant.
pub mod Keeps
use saas_ntier_lab.Prelude.{
  String, Bool, true, false, Option, none, some, List, [], ◌∷◌, ◌++◌, map, elem, ◌==◌, ◌<>◌,
  or_else, repr, repr_list, show_nat, lookup, sort_by, if◌then◌else◌,
}
use saas_ntier_lab.Errors.{Result, ok, err, Error}
use saas_ntier_lab.Exec.{Platform, Exec, Outputs, ◌>>=◌, ◌>>◌, pure, lift, tofu_outputs}
use saas_ntier_lab.Onboard.{
  onboard_error, require_text, require_list, uses_controller, ingress_group,
  ensure_platform_guardrails, run_checked, run_out, run_fed, node_ip, wait_ingress_hostname,
  write_alb_url,
}
use saas_ntier_lab.Onboard.Chart.{
  group_order, controller_sets, node_port_sets, install_command, migrate_sets, value,
}

abbrev pub Texts : Type 0
Texts = List (String × String)

-- The keyword arguments of `onboard` and `onboard_tenant`: `none` is `None`.
pub record Maps : Type 0 where
  pub ids : Option (List String)
  pub irsa : Option Texts
  pub secrets : Option Texts

abbrev pub given_or : {A : Type 0} → Option (List A) → Result (List A) → Result (List A)
given_or none required = required
given_or (some x) required = ok x

-- `[*ids, tenant]` if it is not among them
abbrev pub with_tenant : String → List String → List String
with_tenant tenant ids = if elem tenant ids then ids else ids ++ tenant ∷ []

-- `outputs.get("platform_tenant_id") or (ids[0] if ids else "a")`
abbrev pub first_or_a : List String → String
first_or_a [] = "a"
first_or_a (x ∷ xs) = x

abbrev pub platform_tenant : Outputs → List String → String
platform_tenant o ids = or_else o.platform_tenant_id (first_or_a ids)

abbrev pub key_of : String × String → String
key_of (k, v) = k

abbrev pub sorted_keys : Texts → List String
sorted_keys d = sort_by (λ (k : String). k) (map key_of d)

pub missing_maps : String → Texts → Texts → Error
unfolding repr_list
missing_maps tenant irsa secrets = onboard_error (
    "tenant "
    <> repr tenant
    <> " missing IRSA/secret maps (irsa="
    <> repr_list (sorted_keys irsa)
    <> ", secrets="
    <> repr_list (sorted_keys secrets)
    <> "). Provision identity via control plane or tofu apply.")

abbrev pub found_or : {A : Type 0} → Error → Option A → Result A
found_or e none = err e
found_or e (some a) = ok a

-- `irsa_roles[tenant]` and `secrets[tenant]`, after the test that both have it
pub both : Error → Option String → Option String → Result (String × String)
both e (some a) (some b) = ok (a, b)
both e _ _ = err e

pub no_cidrs : List String → Result (Unit {0})
no_cidrs [] = err (
    onboard_error
      "tofu output public_subnet_cidrs is empty; needed for NetworkPolicy with alb_controller")
no_cidrs (x ∷ xs) = ok tt

pub no_port : String → Error
no_port tenant = onboard_error ("tenant " <> repr tenant <> " missing from tenant_node_ports")

-- What `onboard` has read of its arguments and of the outputs when it comes to the edge.
pub record Release : Type 0 where
  pub tenant : String
  pub ids : List String
  pub irsa : String
  pub secret : String
  pub host : String
  pub region : String
  pub secrets : Texts

abbrev pub namespace_command : String → List String
namespace_command ns =
    "kubectl" ∷ "create" ∷ "namespace" ∷ ns ∷ "--dry-run=client" ∷ "-o" ∷ "yaml" ∷ []

abbrev pub apply_command : List String
apply_command = "kubectl" ∷ "apply" ∷ "-f" ∷ "-" ∷ []

abbrev pub label_command : String → List String
label_command tenant =
    "kubectl" ∷ "label" ∷ "ns" ∷ ("tenant-" <> tenant) ∷ ("tenant=" <> tenant) ∷ "--overwrite" ∷ []

abbrev pub delete_migrate : String → List String
delete_migrate ns =
    "kubectl" ∷ "-n" ∷ ns ∷ "delete" ∷ "job" ∷ "test-app-migrate" ∷ "--ignore-not-found" ∷ []

abbrev pub wait_migrate : String → List String
wait_migrate ns =
    "kubectl" ∷ "-n" ∷ ns ∷ "wait" ∷ "--for=condition=complete" ∷ "job/test-app-migrate"
    ∷ "--timeout=300s" ∷ []

abbrev pub or_default : {A : Type 0} → Option (List A) → List A → List A
or_default none d = d
or_default (some x) d = x

abbrev pub with_platform : String → List String → List String
with_platform platform ids = if elem platform ids then ids else platform ∷ ids

module _ (p : Platform) (chart_dir guardrails_dir : String) where
  -- `edge_sets` of the mode `alb_controller`
  pub controller_edge : String → Outputs → List String → Exec p (List String)
  unfolding ensure_platform_guardrails controller_sets show_nat group_order no_cidrs
  controller_edge tenant o ids = do
    ensure_platform_guardrails p guardrails_dir o
    lift (no_cidrs o.public_subnet_cidrs)
    pure (
        controller_sets o (ingress_group o) (show_nat (group_order tenant ids))
          (or_else (p.environ "MY_IP") (or_else o.my_ip_cidr "")))

  -- `edge_sets` of the other modes
  pub node_port_edge : String → String → Outputs → Exec p (List String)
  unfolding node_port_sets lookup require_list no_port
  node_port_edge tenant ip o = do
    ports ← lift (require_list "tenant_node_ports" o.tenant_node_ports)
    port ← lift (found_or (no_port tenant) (lookup tenant ports))
    pure (node_port_sets ip port)

  pub edge_of : Release → String → Outputs → Exec p (List String)
  unfolding controller_edge node_port_edge
  edge_of r ip o =
      if uses_controller o then controller_edge r.tenant o r.ids else node_port_edge r.tenant ip o

  -- The end of the Helm command: for the platform's tenant the old migration is deleted first.
  pub migration : Release → Outputs → Bool → Exec p (List String)
  unfolding run_checked require_text migrate_sets
  migration r o true = do
    run_checked p (delete_migrate ("tenant-" <> r.tenant))
    migrator ← lift (require_text "migrator_irsa_role_arn" o.migrator_irsa_role_arn)
    master ← lift (require_text "rds_secret_name" o.rds_secret_name)
    pure (migrate_sets migrator master r.secrets)
  migration r o false = pure (value "database.migrate" "false")

  pub await_migration : String → Bool → Exec p (Unit {0})
  unfolding run_checked
  await_migration tenant true = run_checked p (wait_migrate ("tenant-" <> tenant))
  await_migration tenant false = pure tt

  -- `onboard` from the edge on
  pub install : Release → String → Outputs → Exec p (Unit {0})
  unfolding edge_of migration await_migration run_out run_fed run_checked install_command
  install r ip o = do
    edge ← edge_of r ip o
    yaml ← run_out p (namespace_command ("tenant-" <> r.tenant))
    run_fed p apply_command yaml
    run_checked p (label_command r.tenant)
    migrate ← migration r o (r.tenant == platform_tenant o r.ids)
    run_checked p
        (install_command chart_dir r.tenant r.irsa r.host r.secret r.region edge ++ migrate)
    await_migration r.tenant (r.tenant == platform_tenant o r.ids)

  -- `onboard`
  unfoldable pub onboard : String → Outputs → String → Maps → Exec p (Unit {0})
  unfolding install both missing_maps require_list require_text lookup
  onboard tenant o ip maps = do
    ids ← lift (given_or maps.ids (require_list "tenant_ids" o.tenant_ids))
    irsa ← lift (given_or maps.irsa (require_list "tenant_irsa_role_arns" o.tenant_irsa_role_arns))
    secrets ←
        lift (given_or maps.secrets (require_list "tenant_secret_names" o.tenant_secret_names))
    own ←
        lift (both (missing_maps tenant irsa secrets) (lookup tenant irsa) (lookup tenant secrets))
    host ← lift (require_text "rds_host" o.rds_host)
    install
        (record {
          tenant = tenant;
          ids = with_tenant tenant ids;
          irsa = own.0;
          secret = own.1;
          host = host;
          region = or_else o.aws_region (or_else (p.environ "AWS_REGION") "us-east-1");
          secrets = secrets;
        })
        ip o

  unfoldable pub onboard_each : List String → Outputs → String → Maps → Exec p (Unit {0})
  unfolding onboard
  onboard_each [] o ip maps = pure tt
  onboard_each (t ∷ ts) o ip maps = do onboard t o ip maps; onboard_each ts o ip maps

  unfoldable pub publish : String → String → Bool → Exec p (Unit {0})
  unfolding wait_ingress_hostname write_alb_url
  publish tenant tofu_dir true = do
    host ← wait_ingress_hostname p ("tenant-" <> tenant) "test-app" 600
    _ ← write_alb_url p tofu_dir host
    pure tt
  publish tenant tofu_dir false = pure tt

  -- `onboard_tenant`
  unfoldable pub onboard_tenant : String → String → Maps → Exec p (Unit {0})
  unfolding tofu_outputs node_ip onboard_each publish
  onboard_tenant tenant tofu_dir maps = do
    o ← tofu_outputs
    ip ← node_ip p
    let given_ids = or_default maps.ids o.tenant_ids
    let platform = platform_tenant o given_ids
    onboard_each (if tenant == platform then tenant ∷ [] else platform ∷ tenant ∷ []) o ip (record {
      ids = some (with_platform platform (with_tenant tenant given_ids));
      irsa = some (or_default maps.irsa o.tenant_irsa_role_arns);
      secrets = some (or_default maps.secrets o.tenant_secret_names);
    })
    publish tenant tofu_dir (uses_controller o)

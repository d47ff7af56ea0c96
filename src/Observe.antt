-- ===== src/Observe.antt =====
-- control-plane/observe.py: what is observed of a tenant's infrastructure.
pub mod Kubectl
use saas_ntier_lab.Prelude.{
  ℕ, String, Bool, true, false, not, ◌&&◌, Option, none, some, [], ◌∷◌, eqb, leb, show_nat, join,
  ◌<>◌,
}

-- The replica count is not negative.
pub record Observed : Type 0 where
  pub namespace : Bool
  pub deploy_ready : Bool
  pub replicas : ℕ
  pub ingress : Bool
  pub service : Bool
  pub network_policy : Bool
  pub resource_quota : Bool
  pub irsa_sa : Bool
  pub secret : Option Bool
  pub irsa : Option Bool

-- `Observed()`
abbrev pub nothing_observed : Observed
nothing_observed = record {
  namespace = false;
  deploy_ready = false;
  replicas = 0;
  ingress = false;
  service = false;
  network_policy = false;
  resource_quota = false;
  irsa_sa = false;
  secret = none;
  irsa = none;
}

unfoldable pub matches_active : Observed → Bool
matches_active o =
    o.namespace
    && o.deploy_ready
    && leb 1 o.replicas
    && o.ingress
    && o.service
    && o.network_policy
    && o.resource_quota
    && o.irsa_sa

unfoldable pub matches_suspended : Observed → Bool
matches_suspended o = o.namespace && eqb o.replicas 0 && not o.ingress

unfoldable pub matches_gone : Observed → Bool
matches_gone o = not o.namespace

json_bool : Bool → String
json_bool true = "true"
json_bool false = "false"

json_maybe : Option Bool → String
unfolding json_bool
json_maybe none = "null"
json_maybe (some b) = json_bool b

abbrev json_field : String → String → String
json_field name value = "\"" <> name <> "\": " <> value

-- `json.dumps(asdict(self), sort_keys=True)`
unfoldable pub as_json : Observed → String
unfolding json_bool json_maybe show_nat join
as_json o =
    "{"
    <> join ", " (
        json_field "deploy_ready" (json_bool o.deploy_ready)
        ∷ json_field "ingress" (json_bool o.ingress)
        ∷ json_field "irsa" (json_maybe o.irsa)
        ∷ json_field "irsa_sa" (json_bool o.irsa_sa)
        ∷ json_field "namespace" (json_bool o.namespace)
        ∷ json_field "network_policy" (json_bool o.network_policy)
        ∷ json_field "replicas" (show_nat o.replicas)
        ∷ json_field "resource_quota" (json_bool o.resource_quota)
        ∷ json_field "secret" (json_maybe o.secret)
        ∷ json_field "service" (json_bool o.service)
        ∷ [])
    <> "}"

-- ===== src/Observe/Kubectl.antt =====
-- `KubectlObserver` of control-plane/observe.py. `_kubectl_json` runs kubectl and decodes what it
-- prints; it is the parameter `kubectl_json`, and `none` is its `None`: kubectl fails, or what it
-- prints is no JSON.
pub mod Laws
pub mod Live
pub mod Keeps
use saas_ntier_lab.Prelude.{
  ℕ, String, ◌≡◌, ◌↔◌, ◌≤◌, refl, Bool, true, false, not, ◌&&◌, Option, none, some, List, [], ◌∷◌,
  leb, eqb, truthy, ◌<>◌, arith, if◌then◌else◌,
}
use saas_ntier_lab.Observe.{Observed, nothing_observed, matches_active}
use saas_ntier_lab.Exec.{Platform, Exec, ◌>>=◌, pure, continue}

-- What the observer reads of a decoded object: whether it is `{}`, `spec.replicas`,
-- `status.readyReplicas` and the annotation with the role's ARN; `none` is a value that is not there.
pub record Object : Type 0 where
  pub empty : Bool
  pub replicas : Option ℕ
  pub ready_replicas : Option ℕ
  pub role_arn : Option String

-- The truth of `_kubectl_json`'s result
abbrev pub is_there : Option Object → Bool
is_there none = false
is_there (some o) = not o.empty

-- `… is not None`
abbrev pub is_some : Option Object → Bool
is_some none = false
is_some (some o) = true

-- `int(… or 0)`
abbrev pub count : Option ℕ → ℕ
count none = 0
count (some n) = n

-- `spec` of the observer, and `ready_n`
abbrev pub wanted : Option Object → ℕ
wanted none = 0
wanted (some o) = if o.empty then 0 else count o.replicas

abbrev pub running : Option Object → ℕ
running none = 0
running (some o) = if o.empty then 0 else count o.ready_replicas

abbrev pub has_role : Option Object → Bool
has_role none = false
has_role (some o) = not o.empty && truthy o.role_arn

-- The answers to the observer's questions after the namespace.
pub record Answers : Type 0 where
  pub deploy : Option Object
  pub ingress : Option Object
  pub service : Option Object
  pub network_policy : Option Object
  pub resource_quota : Option Object
  pub service_account : Option Object

unfoldable pub observed_of : Answers → Observed
observed_of a = record {
  namespace = true;
  deploy_ready = leb 1 (wanted a.deploy) && leb 1 (running a.deploy);
  replicas = wanted a.deploy;
  ingress = is_some a.ingress;
  service = is_some a.service;
  network_policy = is_some a.network_policy;
  resource_quota = is_some a.resource_quota;
  irsa_sa = has_role a.service_account;
  secret = none;
  irsa = none;
}

module _ {p : Platform} (kubectl_json : List String → Exec p (Option Object)) where
  abbrev pub get_in : String → String → String → Exec p (Option Object)
  get_in ns kind name = kubectl_json ("-n" ∷ ns ∷ "get" ∷ kind ∷ name ∷ [])

  pub observe_live : String → Bool → Exec p Observed
  unfolding observed_of
  observe_live ns false = pure nothing_observed
  observe_live ns true = do
    deploy ← get_in ns "deploy" "test-app"
    ingress ← get_in ns "ingress" "test-app"
    service ← get_in ns "svc" "test-app"
    policy ← get_in ns "networkpolicy" "test-app"
    quota ← get_in ns "resourcequota" "test-app-quota"
    account ← get_in ns "sa" "test-app"
    pure (
        observed_of (record {
          deploy = deploy;
          ingress = ingress;
          service = service;
          network_policy = policy;
          resource_quota = quota;
          service_account = account;
        }))

  -- `KubectlObserver.observe`
  unfoldable pub observe : String → Exec p Observed
  unfolding observe_live
  observe tenant_id = do
    ns ← kubectl_json ("get" ∷ "ns" ∷ ("tenant-" <> tenant_id) ∷ [])
    observe_live ("tenant-" <> tenant_id) (is_there ns)

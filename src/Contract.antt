-- ===== src/Contract.antt =====
-- control-plane/contract_check.py: the gate before the registry says ACTIVE.
pub mod Laws
use saas_ntier_lab.Prelude.{
  ℕ, String, Bool, true, false, not, ◌||◌, Option, none, some, List, [], ◌∷◌, ◌++◌, ltb, join,
  truthy, ◌<>◌, ◌==◌, or_else, if◌then◌else◌,
}
use saas_ntier_lab.Store.{Row, Owner}
use saas_ntier_lab.Observe.{Observed, matches_active}

pub record ContractResult : Type 0 where
  pub ok : Bool
  pub reason : String

abbrev pub when_missing : Bool → String → List String
when_missing true part = part ∷ []
when_missing false part = []

-- The list `missing`.
unfoldable pub missing_parts : Observed → List String
missing_parts o =
    when_missing (not o.namespace) "namespace"
    ++ when_missing (not o.deploy_ready || ltb o.replicas 1) "ready_workload"
    ++ when_missing (not o.ingress) "ingress"
    ++ when_missing (not o.service) "service"
    ++ when_missing (not o.network_policy) "network_policy"
    ++ when_missing (not o.resource_quota) "resource_quota"
    ++ when_missing (not o.irsa_sa) "irsa_serviceaccount"

abbrev pub fail : String → ContractResult
fail why = record { ok = false; reason = why }

abbrev pub pass : ContractResult
pass = record {
  ok = true;
  reason = "infra + registry identity present; full isolation proof is tests/";
}

-- The pointers that a row of the control plane must have.
check_pointers : Option Owner → Row → ContractResult
check_pointers (some Owner.control_plane) item =
    if not (truthy item.secret_name)
    then fail "registry missing secret_name"
    else if not (truthy item.irsa_role_arn)
    then fail "registry missing irsa_role_arn"
    else pass
check_pointers _ item = pass

pub judge : Bool → Observed → Row → ContractResult
unfolding missing_parts check_pointers join
judge false observed item =
    fail ("infra incomplete: " <> or_else (some (join "," (missing_parts observed))) "unknown")
judge true observed item = check_pointers item.owned_by item

unfoldable pub validate_active_contract : String → Observed → Row → ContractResult
unfolding judge
validate_active_contract tenant_id observed item = judge (matches_active observed) observed item

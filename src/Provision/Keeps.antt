-- ===== src/Provision/Keeps.antt =====
-- `provision` of control-plane/provisioner.py and the registry's invariant.
use saas_ntier_lab.Prelude.{String, Bool, true, false}
use saas_ntier_lab.Store.{Table}
use saas_ntier_lab.Exec.{Platform, Outputs}
use saas_ntier_lab.Exec.Keeps.{Keeps, Registered, registered_rules}
use saas_ntier_lab.Exec.Frame.{Tabled, tabled_rules, framed-Registered, store_list-Tabled}
use saas_ntier_lab.Identity.{Made}
use saas_ntier_lab.Identity.Keeps.{identity-Keeps}
use saas_ntier_lab.Infra.Keeps.{infra-Keeps}
use saas_ntier_lab.Onboard.Install.{Maps}
use saas_ntier_lab.Onboard.Install.Keeps.{onboard-Keeps}
use saas_ntier_lab.Onboard.Keeps.{node_ip-Keeps, wait-Keeps, write_alb_url-Keeps}
use saas_ntier_lab.Provision.{
  Order, identity_from_maps, identity_by, identity_for, onboard_first, load_balancer, release,
  provision_body, fail_provision, provision,
}

module _ {p : Platform} (chart_dir guardrails_dir tofu_dir : String) where
  module _ {Q : Table → Type 0} where
    identity_by-Keeps :
        (b : Bool) (k : String) (o : Outputs)
        → Keeps (Tabled p Q) (identity_by p chart_dir guardrails_dir tofu_dir b k o)
    unfolding identity_by identity_from_maps
    identity_by-Keeps true k o = identity-Keeps o k
    identity_by-Keeps false k o = search tabled_rules depth 8

    identity_for-Keeps :
        (order : Order) (k : String)
        → Keeps (Tabled p Q) (identity_for p chart_dir guardrails_dir tofu_dir order k)
    unfolding identity_for
    identity_for-Keeps order k = search (tabled_rules, infra-Keeps, identity_by-Keeps) depth 9

    first-Keeps :
        (f k : String) (o : Outputs) (ip : String) (m : Maps)
        → Keeps (Tabled p Q) (onboard_first p chart_dir guardrails_dir tofu_dir f k o ip m)
    unfolding onboard_first
    first-Keeps f k o ip m = search (tabled_rules, onboard-Keeps)

    balancer-Keeps :
        (k : String) (o : Outputs) (b : Bool)
        → Keeps (Tabled p Q) (load_balancer p chart_dir guardrails_dir tofu_dir k o b)
    unfolding load_balancer
    balancer-Keeps k o true = search (tabled_rules, wait-Keeps, write_alb_url-Keeps)
    balancer-Keeps k o false = search tabled_rules

  release-Registered :
      (order : Order) (k : String) (o : Outputs) (made : Made)
      → Keeps (Registered p) (release p chart_dir guardrails_dir tofu_dir order k o made)
  unfolding release
  release-Registered order k o made =
      search
        (
          registered_rules, framed-Registered, store_list-Tabled, node_ip-Keeps, first-Keeps,
          onboard-Keeps, balancer-Keeps,
        )
        depth 14

  -- A provisioning keeps the invariant of the registry, however it ends.
  pub provision-Registered :
      (k : String) (order : Order)
      → Keeps (Registered p) (provision p chart_dir guardrails_dir tofu_dir k order)
  unfolding provision provision_body fail_provision
  provision-Registered k order =
      search (registered_rules, framed-Registered, identity_for-Keeps, release-Registered) depth 14

-- ===== src/Examples/Provisioning.antt =====
-- Provisionings and what they use, on a platform where every call succeeds and on one whose OpenTofu
-- outputs cannot be read.
use saas_ntier_lab.Prelude.{ℕ, ◌+◌, ◌≡◌, refl, true, String, List, [], ◌∷◌}
use saas_ntier_lab.Errors.{ok, err, Error, Kind, is_control_plane}
use saas_ntier_lab.Ids.{tenant_id_re, validate_tenant_id}
use saas_ntier_lab.Ids.Grammar.{IsTenantId, tenant_id_re-IsTenantId}
use saas_ntier_lab.Store
use saas_ntier_lab.Exec.{Platform, World, capture_of, spawn, feed_to, time_now, write_text}
use saas_ntier_lab.Onboard.{onboard_error}
use saas_ntier_lab.Infra.Tfvars.{parse_ids, inner_text}
use saas_ntier_lab.Infra.Tfvars.RoundTrip.{parse_ids-inner_text}
use saas_ntier_lab.Provision.{Order, default_order, provision}
use saas_ntier_lab.Provision.Outcome.{IsFailed, provision_records}
use saas_ntier_lab.Provision.Active.{IsProvisioned, provision_returns}
use saas_ntier_lab.Examples.{calm, world, rows, acme-IsTenantId}

a-IsTenantId : IsTenantId "a"
unfolding tenant_id_re
a-IsTenantId = (tenant_id_re-IsTenantId "a").0 refl

abbrev order : Order
order = default_order "standard"

provisions : (provision calm "chart" "guardrails" "workload" "a" order world).0 ≡ ok tt
unfolding provision validate_tenant_id Store.upsert Store.put capture_of Store.list spawn feed_to
    time_now write_text
provisions = refl

provision_returns_example :
    IsProvisioned calm "chart" "guardrails" "workload" order "a"
      (provision calm "chart" "guardrails" "workload" "a" order world).1
provision_returns_example =
    provision_returns calm "chart" "guardrails" "workload" "a" order world a-IsTenantId provisions

abbrev blind : Platform
blind = record calm { tofu_output = λ x. (err (onboard_error "tofu: no such file"), x + 1) }

abbrev before : World blind
before = record { table = rows; ext = 0; log = [] }

abbrev refused : Error
refused = record { kind = Kind.permanent; message = "tofu: no such file" }

raises : (provision blind "chart" "guardrails" "workload" "acme" order before).0 ≡ err refused
unfolding provision validate_tenant_id Store.upsert Store.put
raises = refl

provision_records_example :
    (is_control_plane refused.kind ≡ true)
    × IsFailed "acme" refused
        (provision blind "chart" "guardrails" "workload" "acme" order before).1.table
provision_records_example =
    provision_records blind "chart" "guardrails" "workload" "acme" order refused before
      acme-IsTenantId raises

abbrev ids : List String
ids = "a" ∷ "acme" ∷ []

parse_ids-inner_text_example : parse_ids (inner_text ids) ≡ ids
parse_ids-inner_text_example = parse_ids-inner_text ids (a-IsTenantId, (acme-IsTenantId, tt))

abbrev seconds : ℕ → ℕ
seconds x = x

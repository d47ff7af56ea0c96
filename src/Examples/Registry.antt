-- ===== src/Examples/Registry.antt =====
-- The registry's theorems at concrete rows.
use saas_ntier_lab.Prelude.{
  ℕ, zero, suc, ◌+◌, String, ◌≡◌, ◌≢◌, Bool, ◌↔◌, refl, arith, some, Option,
}
use saas_ntier_lab.Errors.{Result, ok, err, Error, Kind, retryable}
use saas_ntier_lab.Errors.Retry.{with_retry}
use saas_ntier_lab.Errors.Retry.Bounds.{with_retry_exhausts}
use saas_ntier_lab.Ids.{validate_tenant_id}
use saas_ntier_lab.Ids.Grammar.{IsTenantId, validate_tenant_id-IsTenantId}
use saas_ntier_lab.Store.{Row, Fields, Status, get, upsert, no_fields, merge}
use saas_ntier_lab.Prelude.{List, [], ◌∷◌}
use saas_ntier_lab.Store.Refinement.{Request, Shows, serve_all, specify_all, serve_all-Shows}
use saas_ntier_lab.Store.Invariant.{IsRegistry}
use saas_ntier_lab.Store.Versions.{no_lost_update}
use saas_ntier_lab.Examples.{acme, rows, acme-IsTenantId, globex-IsTenantId}

validate_tenant_id-IsTenantId_example :
    (validate_tenant_id (some "acme") ≡ ok "acme")
    ↔ (◌≡◌ {A = Option String} (some "acme") (some "acme") × IsTenantId "acme")
validate_tenant_id-IsTenantId_example = validate_tenant_id-IsTenantId (some "acme") "acme"

rejects_newline : validate_tenant_id (some "acme\n") ≢ ok "acme\n"
unfolding validate_tenant_id
rejects_newline h = cc

-- A call that is throttled until its fourth time, on the number of calls made and the time waited.
throttled : ℕ × ℕ → Result ℕ × (ℕ × ℕ)
throttled (zero, t) = (err (record { kind = Kind.aws_retryable; message = "Throttling" }), (1, t))
throttled (suc n, t) = (if_late n, (suc n + 1, t))
  where
    if_late : ℕ → Result ℕ
    if_late (suc (suc m)) = ok 7
    if_late _ = err (record { kind = Kind.aws_retryable; message = "Throttling" })

abbrev retried : Error → Bool
retried e = retryable e.kind

abbrev wait : ℕ → ℕ × ℕ → ℕ × ℕ
wait k (n, t) = (n, t + k)

abbrev calls_of : ℕ × ℕ → ℕ
calls_of (n, t) = n

counted : (s : ℕ × ℕ) → calls_of (throttled s).1 ≡ calls_of s + 1
unfolding throttled
counted (zero, t) = omega arith
counted (suc n, t) = omega arith

gives_up :
    (with_retry throttled retried wait 2 (0, 0)).0
    ≡ err (record { kind = Kind.aws_retryable; message = "Throttling" })
unfolding with_retry throttled
gives_up = refl

with_retry_exhausts_example : calls_of (with_retry throttled retried wait 2 (0, 0)).1 ≡ 0 + 2
with_retry_exhausts_example =
    with_retry_exhausts throttled retried wait calls_of counted (λ k s. refl) 2 (0, 0)
      (record { kind = Kind.aws_retryable; message = "Throttling" }) (omega arith) gives_up refl

pub rows-IsRegistry : IsRegistry rows
unfolding get
rows-IsRegistry = (
  record { id = globex-IsTenantId; desired = refl; version = omega arith },
  refl,
  (record { id = acme-IsTenantId; desired = refl; version = omega arith }, refl, tt),
)

abbrev to_drift : Fields
to_drift = record no_fields { status = some Status.drift }

abbrev drifted_acme : Row
drifted_acme = record acme { status = Status.drift; version = 4; updated_at = "now" }

accepted : (upsert "now" "acme" (some 3) to_drift rows).0 ≡ ok drifted_acme
unfolding upsert merge
accepted = refl

no_lost_update_example :
    let t' = (upsert "now" "acme" (some 3) to_drift rows).1 in
    let second = upsert "later" "acme" (some 3) no_fields t' in
    (get second.1 "acme" ≡ some drifted_acme)
    × ((e : Error) × (second.0 ≡ err e) × (e.kind ≡ Kind.conflict))
unfolding get
no_lost_update_example =
    no_lost_update "now" "later" "acme" to_drift no_fields rows acme drifted_acme refl accepted

abbrev requests : List Request
requests =
    Request.read "acme"
    ∷ Request.write "later" "acme" (some 3) no_fields
    ∷ Request.write "later" "acme" (some 3) no_fields
    ∷ Request.erase "globex"
    ∷ []

serve_all-Shows_example :
    ((serve_all requests rows).0 ≡ (specify_all requests (get rows)).0)
    × Shows (serve_all requests rows).1 (specify_all requests (get rows)).1
serve_all-Shows_example = serve_all-Shows requests rows (get rows) (record { at = λ j. refl })

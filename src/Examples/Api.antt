-- ===== src/Examples/Api.antt =====
-- Requests and settings of the HTTP API.
use saas_ntier_lab.Prelude.{ℕ, String, ◌≡◌, ◌↔◌, ◌⊎◌, ◌≤◌, refl, true, Option, none, some, strip}
use saas_ntier_lab.Errors.{ok}
use saas_ntier_lab.Safety.{is_ascii, bearer_token, authorize_http, secret_recovery_window_days}
use saas_ntier_lab.Safety.Laws.{authorize-pass_iff, secret_recovery_window_days-bounds}

abbrev header : Option String
header = some "Bearer s3cret"

authorize-pass_iff_example : (authorize_http "/tenants" header " s3cret" ≡ ok none) ↔ (
    ◌≡◌ {A = String} "/tenants" "/health"
    ⊎ ((strip " s3cret" ≡ "")
        ⊎ ((bearer_token header ≡ strip " s3cret") × (is_ascii (strip " s3cret") ≡ true))))
authorize-pass_iff_example = authorize-pass_iff "/tenants" header " s3cret"

window : secret_recovery_window_days none (some "30") ≡ ok 30
unfolding secret_recovery_window_days
window = refl

secret_recovery_window_days-bounds_example : (◌≡◌ {A = ℕ} 30 0) ⊎ ((7 ≤ 30) × (30 ≤ 30))
secret_recovery_window_days-bounds_example =
    secret_recovery_window_days-bounds none (some "30") 30 window

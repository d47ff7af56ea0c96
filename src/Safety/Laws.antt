-- ===== src/Safety/Laws.antt =====
-- What control-plane/safety.py lets pass.
use saas_ntier_lab.Prelude.{
  ℕ, String, ◌≡◌, ◌≢◌, ◌↔◌, true, false, Option, none, some, ◌≤◌, arith, eq_iff, sym, ◌∙◌, strip,
  strip-strip, or_else, ◌⊎◌, inl, inr,
}
use saas_ntier_lab.Errors.{ok}
use saas_ntier_lab.Safety.{
  is_loopback_host, configured_token, assert_bind_safety, bearer_token, authorize_http, decide_http,
  is_ascii, window_text, Number, window_of, parse_int, secret_recovery_window_days,
}

decide-pass_iff :
    (path secret presented : String)
    → (decide_http path secret presented ≡ ok none)
      ↔ ((path ≡ "/health") ⊎ ((secret ≡ "") ⊎ ((presented ≡ secret) × (is_ascii secret ≡ true))))
unfolding decide_http
decide-pass_iff path secret presented = (
  λ h. ground (
    arith,
    eq_iff path "/health",
    eq_iff presented secret,
    eq_iff secret "",
    eq_iff presented "",
  ),
  λ h. ground (
    arith,
    eq_iff path "/health",
    eq_iff presented secret,
    eq_iff secret "",
    eq_iff presented "",
  ),
)

-- A request passes exactly when its path is /health, or no token is configured, or its bearer token
-- is the configured token, without surrounding white space, and all of it ASCII.
pub authorize-pass_iff :
    (path : String) (authorization : Option String) (token : String)
    → (authorize_http path authorization token ≡ ok none) ↔ (
        (path ≡ "/health")
        ⊎ ((strip token ≡ "")
            ⊎ ((bearer_token authorization ≡ strip token) × (is_ascii (strip token) ≡ true))))
unfolding authorize_http
authorize-pass_iff path authorization token =
    decide-pass_iff path (strip token) (bearer_token authorization)

token_of_bound :
    (env : Option String) (host : String)
    → assert_bind_safety env host none ≡ ok tt
    → is_loopback_host host ≡ false
    → configured_token env ≢ ""
unfolding assert_bind_safety
token_of_bound env host bound far empty = ground (arith, eq_iff (configured_token env) "")

-- Only a host of the loopback interface is served without a token: on any other, where the guard has
-- let the server start with the token of the environment, a request to a path other than /health
-- passes only if its bearer token is that token.
pub bind-authorized :
    (env : Option String) (host path : String) (authorization : Option String)
    → assert_bind_safety env host none ≡ ok tt
    → is_loopback_host host ≡ false
    → path ≢ "/health"
    → authorize_http path authorization (configured_token env) ≡ ok none
    → bearer_token authorization ≡ configured_token env
unfolding configured_token
bind-authorized env host path authorization bound far other passed =
    let same = strip-strip (or_else env "") in
    elim ((authorize-pass_iff path authorization (configured_token env)).0 passed) [
      | inl health ↦ absurd (other health)
      | inr (inl empty) ↦ absurd (token_of_bound env host bound far (sym same ∙ empty))
      | inr (inr (equal, ascii)) ↦ equal ∙ same
    ]

window_of_bounds :
    (parsed : Option Number) (days : ℕ)
    → window_of parsed ≡ ok days
    → (days ≡ 0) ⊎ ((7 ≤ days) × (days ≤ 30))
unfolding window_of
window_of_bounds none days h = cc
window_of_bounds (some (minus, n)) days h = ground arith

-- A recovery window is 0 or from 7 to 30 days, whatever the variable says.
pub secret_recovery_window_days-bounds :
    (env raw : Option String) (days : ℕ)
    → secret_recovery_window_days env raw ≡ ok days
    → (days ≡ 0) ⊎ ((7 ≤ days) × (days ≤ 30))
unfolding secret_recovery_window_days
secret_recovery_window_days-bounds env raw days h =
    window_of_bounds (parse_int (strip (window_text env raw))) days h

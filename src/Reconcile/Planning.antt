-- ===== src/Reconcile/Planning.antt =====
-- What control-plane/reconcile.py plans.
use saas_ntier_lab.Prelude.{◌≡◌, ◌↔◌, Bool, true, false, arith}
use saas_ntier_lab.Store.{Status, Desired, is_desired}
use saas_ntier_lab.Observe.{Observed, matches_active, matches_suspended, matches_gone}
use saas_ntier_lab.Reconcile.{Action, no_action, purge_registry, plan_action}

-- The observed state is what is desired.
abbrev pub matches : Desired → Observed → Bool
matches Desired.active o = matches_active o
matches Desired.suspended o = matches_suspended o
matches Desired.gone o = matches_gone o
matches (Desired.other _) o = false

-- The plan calls none of the functions that change the infrastructure.
abbrev pub is_quiet : Action → Bool
is_quiet no_action = true
is_quiet purge_registry = true
is_quiet _ = false

-- For each of the three desired statuses, the plan leaves the infrastructure alone exactly when the
-- observed state matches the desired one.
pub plan-quiet_iff :
    (d : Desired) (o : Observed) (s : Status)
    → is_desired d ≡ true
    → (is_quiet (plan_action d o s).action ≡ true) ↔ (matches d o ≡ true)
unfolding plan_action
plan-quiet_iff Desired.active o s h = (λ q. ground arith, λ q. ground arith)
plan-quiet_iff Desired.suspended o s h = (λ q. ground arith, λ q. ground arith)
plan-quiet_iff Desired.gone o s h = (λ q. ground arith, λ q. ground arith)
plan-quiet_iff (Desired.other t) o s h = cc

-- ===== src/Exec/Poll.antt =====
-- Loops that look at something until a deadline: `while time.time() < deadline: …; time.sleep(n)`. They
-- run on fuel.
use saas_ntier_lab.Prelude.{ℕ, zero, suc, Bool, true, false, Option, none, some, ltb}
use saas_ntier_lab.Exec.{Platform, Exec, ◌>>=◌, ◌>>◌, pure, sleep_for, time_now}

-- How the loop ends: its body has found something, or the deadline has passed, or the fuel is used up.
pub data Polled (A : Type 0) : Type 0 where
  found : A → Polled A
  late : Polled A
  unfinished : Polled A

module _ {p : Platform} {A : Type 0} (pause : ℕ) (body : Exec p (Option A)) where
  -- What follows the body.
  abbrev pub decide : Exec p (Polled A) → Option A → Exec p (Polled A)
  decide again (some a) = pure (found a)
  decide again none = sleep_for pause >> again

  abbrev pub look : Exec p (Polled A) → Bool → Exec p (Polled A)
  look again false = pure late
  look again true = body >>= decide again

  unfoldable pub poll : ℕ → ℕ → Exec p (Polled A)
  poll zero deadline = pure unfinished
  poll (suc fuel) deadline = time_now >>= λ t. look (poll fuel deadline) (ltb t deadline)

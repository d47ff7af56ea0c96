-- ===== src/Errors/Retry.antt =====
-- `with_retry` of control-plane/errors.py. The callable acts on a state `S`; `sleep k` waits `k`
-- times the base delay.
pub mod Bounds
pub mod Results
pub mod Keeps
use saas_ntier_lab.Prelude.{ℕ, zero, suc, ◌+◌, ◌^◌, Bool, Option, none, some, leb, if◌then◌else◌}
use saas_ntier_lab.Errors.{Result, ok, err, Error, Kind}

module _ {S A : Type 0} (fn : S → Result A × S) (retry_on : Error → Bool) (sleep : ℕ → S → S) where
  -- The end of the loop: `assert last is not None; raise last`.
  abbrev after_loop : Option Error → Result A
  after_loop none = err (record { kind = Kind.assertion; message = "" })
  after_loop (some e) = err e

  -- The rounds from `i` on, `rounds` of them left of `attempts`.
  pub retry_rounds : (rounds i attempts : ℕ) → Option Error → S → Result A × S
  retry_rounds zero i attempts last s = (after_loop last, s)
  retry_rounds (suc rounds) i attempts last s =
      let (r, s') = fn s in
      elim r [
        | ok a ↦ (ok a, s')
        | err e ↦
            let again = retry_rounds rounds (i + 1) attempts (some e) (sleep (2 ^ i) s') in
            if retry_on e
            then (if leb attempts (i + 1) then (err e, s') else again)
            else (err e, s')
      ]

  unfoldable pub with_retry : ℕ → S → Result A × S
  unfolding retry_rounds
  with_retry attempts s = retry_rounds attempts 0 attempts none s

-- ===== src/Errors/Retry/Results.antt =====
-- What `with_retry` of control-plane/errors.py can return.
use saas_ntier_lab.Prelude.{
  ℕ, zero, suc, ◌+◌, ◌^◌, ◌≡◌, Bool, Option, none, some, leb, arith, inl, inr, Bool-cases, ◌&&◌,
  not,
}
use saas_ntier_lab.Errors.{Result, ok, Error, Result-cases}
use saas_ntier_lab.Errors.Retry.{retry_rounds, with_retry}

module _ {S A : Type 0} (fn : S → Result A × S) (retry_on : Error → Bool) (sleep : ℕ → S → S)
    (Q : A → Type 0) (returns : (s : S) (a : A) → (fn s).0 ≡ ok a → Q a) where
  rounds_ok :
      (rounds i attempts : ℕ) (last : Option Error) (s : S) (a : A)
      → (retry_rounds fn retry_on sleep rounds i attempts last s).0 ≡ ok a
      → Q a
  unfolding retry_rounds
  rounds_ok zero i attempts none s a h = cc
  rounds_ok zero i attempts (some e) s a h = cc
  rounds_ok (suc rounds) i attempts last s a h = elim (Result-cases (fn s).0) [
    | inl (b, p) ↦ returns s a (ground arith)
    | inr (e, p) ↦ elim (Bool-cases (retry_on e && not (leb attempts (i + 1)))) [
      | inl y ↦ rounds_ok rounds (i + 1) attempts (some e) (sleep (2 ^ i) (fn s).1) a (ground arith)
      | inr n ↦ absurd (ground arith)
    ]
  ]

  pub with_retry_ok :
      (attempts : ℕ) (s : S) (a : A) → (with_retry fn retry_on sleep attempts s).0 ≡ ok a → Q a
  unfolding with_retry
  with_retry_ok attempts s a h = rounds_ok attempts 0 attempts none s a h

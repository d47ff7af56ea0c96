-- ===== src/Errors/Retry/Keeps.antt =====
-- What each attempt of `with_retry` of control-plane/errors.py keeps, and each wait, the whole keeps.
use saas_ntier_lab.Prelude.{
  ℕ, zero, suc, ◌+◌, ◌^◌, Bool, true, false, Option, none, some, leb, inl, inr, if◌then◌else◌,
}
use saas_ntier_lab.Errors.{Result, err, Error, Result-cases}
use saas_ntier_lab.Errors.Retry.{retry_rounds, with_retry}

module _ {S A : Type 0} (fn : S → Result A × S) (retry_on : Error → Bool) (sleep : ℕ → S → S)
    (P : S → Type 0) (calls : (s : S) → P s → P (fn s).1)
    (waits : (n : ℕ) (s : S) → P s → P (sleep n s)) where
  ending :
      (again : Result A × S) (e : Error) (s : S) (b c : Bool)
      → P s
      → P again.1
      → P (if b then (if c then (err e, s) else again) else (err e, s)).1
  ending again e s false c k r = k
  ending again e s true true k r = k
  ending again e s true false k r = r

  rounds_keep :
      (rounds i attempts : ℕ) (last : Option Error) (s : S)
      → P s
      → P (retry_rounds fn retry_on sleep rounds i attempts last s).1
  unfolding retry_rounds
  rounds_keep zero i attempts last s h = h
  rounds_keep (suc rounds) i attempts last s h =
      let kept = calls s h in
      let rest = λ (e : Error).
        rounds_keep rounds (i + 1) attempts (some e) (sleep (2 ^ i) (fn s).1)
          (waits (2 ^ i) (fn s).1 kept) in
      elim (Result-cases (fn s).0) [
        | inl (a, q) ↦ rw (q, retry_rounds) kept
        | inr (e, q) ↦
            rw (q, retry_rounds)
              (ending _ e (fn s).1 (retry_on e) (leb attempts (i + 1)) kept (rest e))
      ]

  pub with_retry_keeps :
      (attempts : ℕ) (s : S) → P s → P (with_retry fn retry_on sleep attempts s).1
  unfolding with_retry
  with_retry_keeps attempts s h = rounds_keep attempts 0 attempts none s h

-- ===== src/Errors/Retry/Bounds.antt =====
-- How often `with_retry` calls, how long it waits, and what it returns.
use saas_ntier_lab.Prelude.{
  ℕ, zero, suc, ap, ◌+◌, ◌^◌, ◌≤◌, ◌<◌, ◌≡◌, Bool, true, Option, none, some, arith, Bool-cases, inl,
  inr,
}
use saas_ntier_lab.Errors.{Result, err, Error, Result-cases}
use native.Mathlib.Nat.{add-zero, add-suc, pow-suc}
use native.Mathlib.Numerals.{add-one}
use saas_ntier_lab.Errors.Retry.{retry_rounds, with_retry}

pow-doubles : (i : ℕ) → 2 ^ (i + 1) ≡ 2 ^ i + 2 ^ i
pow-doubles i = rw add-one (rw pow-suc (omega arith))

pow-grows : (i k : ℕ) → 2 ^ i ≤ 2 ^ (i + k)
pow-grows i zero = rw add-zero (omega arith)
pow-grows i (suc k) = rw add-suc (rw pow-suc (omega (arith, pow-grows i k)))

shift : (i k : ℕ) → i + 1 + k ≡ i + suc k
shift i k = omega arith

module _ {S A : Type 0} (fn : S → Result A × S) (retry_on : Error → Bool) (sleep : ℕ → S → S)
    (calls : S → ℕ) (counted : (s : S) → calls (fn s).1 ≡ calls s + 1)
    (unmoved : (k : ℕ) (s : S) → calls (sleep k s) ≡ calls s) where
  -- What holds of a run from `s` with `rounds` calls left.
  record IsLast (rounds : ℕ) (s : S) (r : Result A × S) : Type 0 where
    at : S
    call : fn at ≡ r
    few : calls r.1 ≤ calls s + rounds
    used : (e : Error) → r.0 ≡ err e → retry_on e ≡ true → calls r.1 ≡ calls s + rounds

  rounds-IsLast :
      (rounds i attempts : ℕ) (last : Option Error) (s : S)
      → i + suc rounds ≡ attempts
      → IsLast (suc rounds) s (retry_rounds fn retry_on sleep (suc rounds) i attempts last s)
  unfolding retry_rounds
  rounds-IsLast zero i attempts last s h = record {
    at = s;
    call = ground (arith, counted s);
    few = ground (arith, counted s);
    used = λ e q t. ground (arith, counted s);
  }
  rounds-IsLast (suc rounds) i attempts last s h = elim (Result-cases (fn s).0) [
    | inl (a, p) ↦ record {
      at = s;
      call = ground arith;
      few = ground (arith, counted s);
      used = λ e q t. ground (arith, counted s);
    }
    | inr (e, p) ↦ elim (Bool-cases (retry_on e)) [
      | inl y ↦
          let next =
            rounds-IsLast rounds (i + 1) attempts (some e) (sleep (2 ^ i) (fn s).1) (omega arith) in
          record {
            at = next.at;
            call = ground (arith, next.call);
            few = ground (arith, next.few, counted s, unmoved (2 ^ i) (fn s).1);
            used = λ e' q t. ground (arith, next.used e', counted s, unmoved (2 ^ i) (fn s).1);
          }
      | inr n ↦ record {
        at = s;
        call = ground arith;
        few = ground (arith, counted s);
        used = λ e' q t. ground (arith, counted s);
      }
    ]
  ]

  -- With at least one attempt, and `calls` a count of the calls made that waiting does not change,
  -- `with_retry` returns what one of its calls returned, after as many calls as there are attempts at
  -- most.
  pub with_retry_last :
      (attempts : ℕ) (s : S)
      → 0 < attempts
      → (t : S) × (fn t ≡ with_retry fn retry_on sleep attempts s)
        × (calls (with_retry fn retry_on sleep attempts s).1 ≤ calls s + attempts)
  unfolding with_retry
  with_retry_last zero s h = absurd (omega arith)
  with_retry_last (suc n) s h =
      let last = rounds-IsLast n 0 (suc n) none s (omega arith) in (last.at, last.call, last.few)

  -- With at least one attempt, an error of the retried classes comes back only when every attempt has
  -- been used, by such a count of the calls.
  pub with_retry_exhausts :
      (attempts : ℕ) (s : S) (e : Error)
      → 0 < attempts
      → (with_retry fn retry_on sleep attempts s).0 ≡ err e
      → retry_on e ≡ true
      → calls (with_retry fn retry_on sleep attempts s).1 ≡ calls s + attempts
  unfolding with_retry
  with_retry_exhausts zero s e h q t = absurd (omega arith)
  with_retry_exhausts (suc n) s e h q t =
      (rounds-IsLast n 0 (suc n) none s (omega arith)).used e q t

module _ {S A : Type 0} (fn : S → Result A × S) (retry_on : Error → Bool) (sleep : ℕ → S → S)
    (slept : S → ℕ) (busy : (s : S) → slept (fn s).1 ≡ slept s)
    (waits : (k : ℕ) (s : S) → slept (sleep k s) ≡ slept s + k) where
  rounds_wait :
      (rounds i attempts : ℕ) (last : Option Error) (s : S)
      → i + suc rounds ≡ attempts
      → slept (retry_rounds fn retry_on sleep (suc rounds) i attempts last s).1 + 2 ^ i
        ≤ slept s + 2 ^ (i + rounds)
  unfolding retry_rounds
  rounds_wait zero i attempts last s h = rw add-zero (ground (arith, busy s))
  rounds_wait (suc rounds) i attempts last s h = elim (Result-cases (fn s).0) [
    | inl (a, p) ↦ ground (arith, busy s, pow-grows i (suc rounds))
    | inr (e, p) ↦ ground (
      arith,
      busy s,
      waits (2 ^ i) (fn s).1,
      pow-doubles i,
      pow-grows i (suc rounds),
      ap (λ (k : ℕ). 2 ^ k) (shift i rounds),
      rounds_wait rounds (i + 1) attempts (some e) (sleep (2 ^ i) (fn s).1) (omega arith),
    )
  ]

  -- With at least one attempt, and `slept` a count of the waits that the calls do not change, the waits
  -- add up to less than 2 ^ (attempts - 1) times the base delay.
  pub with_retry_wait :
      (attempts : ℕ) (s : S)
      → slept (with_retry fn retry_on sleep (suc attempts) s).1 + 1 ≤ slept s + 2 ^ attempts
  unfolding with_retry
  with_retry_wait n s =
      let e : 0 + n ≡ n = omega arith in rw e at (rounds_wait n 0 (suc n) none s (omega arith))

-- ===== src/Onboard/Waiting.antt =====
-- The time that the polling loops take.
use saas_ntier_lab.Prelude.{
  ℕ, zero, suc, ◌+◌, ◌*◌, ◌<◌, ◌≤◌, String, ◌≡◌, refl, Bool, true, false, Option, none, some, List,
  arith, ltb, ◌⊎◌,
}
use saas_ntier_lab.Errors.{Result, ok, err, Error}
use saas_ntier_lab.Exec.{
  Platform, World, Exec, Exit, ◌>>=◌, pure, lift, continue, sleep_for, time_now,
}
use saas_ntier_lab.Onboard.{check_error, stripped_or, none_if_empty, hostname_command, no_address}
use saas_ntier_lab.Exec.Poll.{Polled, found, late, unfinished, poll, decide, look}

-- What the clock and `sleep` are documented to do: `clock` is the time in whole seconds, which no call
-- turns back, and a sleep of some seconds takes at least those.
pub record IsTimely (p : Platform) (clock : p.Ext → ℕ) : Type 0 where
  pub reads : (x : p.Ext) → (p.now x).0 ≡ clock x
  pub after_now : (x : p.Ext) → clock x ≤ clock (p.now x).1
  pub after_sleep : (n : ℕ) (x : p.Ext) → clock x + n ≤ clock (p.sleep (n * 1000) x)
  pub after_capture : (cmd : List String) (x : p.Ext) → clock x ≤ clock (p.capture cmd x).1

module _ {A : Type 0} (Good : A → Type 0) (Bad : Error → Type 0) where
  -- What the body of a loop has done
  pub LookedAt : Result (Option A) → Type 0
  LookedAt (ok none) = Unit
  LookedAt (ok (some a)) = Good a
  LookedAt (err e) = Bad e

  -- How a loop has ended, at a time
  pub HasEnded : ℕ → ℕ → Result (Polled A) → Type 0
  HasEnded deadline time (ok (found a)) = Good a
  HasEnded deadline time (ok late) = deadline ≤ time
  HasEnded deadline time (ok unfinished) = ⊥
  HasEnded deadline time (err e) = Bad e

module _ {p : Platform} (clock : p.Ext → ℕ) {A : Type 0} (Good : A → Type 0)
    (Bad : Error → Type 0) where
  -- The loop, run from a state, ends.
  abbrev Ends : ℕ → Exec p (Polled A) → World p → Type 0
  Ends deadline m w = HasEnded Good Bad deadline (clock (m w).1.ext) (m w).0

  module _ (timely : IsTimely p clock) (pause : ℕ) (body : Exec p (Option A))
      (looks : (w : World p)
        → LookedAt Good Bad (body w).0 × (clock w.ext ≤ clock (body w).1.ext)) where
    decided :
        (again : Exec p (Polled A)) (deadline : ℕ) (r : Result (Option A)) (w : World p)
        → LookedAt Good Bad r
        → ((w' : World p) → clock w.ext + pause ≤ clock w'.ext → Ends deadline again w')
        → Ends deadline (λ v. continue r (decide pause body again) v) w
    unfolding LookedAt HasEnded sleep_for
    decided again deadline (ok none) w h k =
        k (record w { ext = p.sleep (pause * 1000) w.ext }) (timely.after_sleep pause w.ext)
    decided again deadline (ok (some a)) w h k = h
    decided again deadline (err e) w h k = h

    looked :
        (again : Exec p (Polled A)) (deadline : ℕ) (b : Bool) (w : World p)
        → (b ≡ false → deadline ≤ clock w.ext)
        → (b ≡ true → (w' : World p) → clock w.ext + pause ≤ clock w'.ext → Ends deadline again w')
        → Ends deadline (look pause body again b) w
    unfolding HasEnded
    looked again deadline false w passed k = passed refl
    looked again deadline true w passed k =
        let (h, later) = looks w in
        decided again deadline (body w).0 (body w).1 h (λ w' after. k refl w' (omega arith))

    -- Fuel for each second up to the deadline, and one more, is enough.
    pub poll_ends :
        (fuel deadline : ℕ) (w : World p)
        → 1 ≤ pause
        → 1 ≤ fuel
        → deadline < clock w.ext + fuel
        → Ends deadline (poll pause body fuel deadline) w
    unfolding poll time_now HasEnded
    poll_ends zero deadline w waits some_fuel enough = omega arith
    poll_ends (suc fuel) deadline w waits some_fuel enough =
        let at = timely.reads w.ext in
        let after = timely.after_now w.ext in
        looked (poll pause body fuel deadline) deadline (ltb (p.now w.ext).0 deadline)
          (record w { ext = (p.now w.ext).1 }) (λ f. ground arith)
          (λ t w' slept. poll_ends fuel deadline w' waits (ground arith) (ground arith))

module _ (p : Platform) (clock : p.Ext → ℕ) (timely : IsTimely p clock) where
  -- What `kubectl` has failed with.
  abbrev pub KubectlFailed : List String → Error → Type 0
  KubectlFailed cmd e = (x : Exit) × (check_error cmd x ≡ some e)

  -- The end of `look_hostname`, after its command
  abbrev named : Option Error → String → Exec p (Option String)
  named o out = lift (stripped_or o out) >>= λ host. pure (none_if_empty host)

  -- An address, or an error: of `kubectl`, or, at the deadline, that it took too long.
  pub IsAddressBy : String → String → ℕ → Result String → ℕ → Type 0
  IsAddressBy ns name deadline (ok host) time = ¬ (host ≡ "")
  IsAddressBy ns name deadline (err e) time =
      KubectlFailed (hostname_command ns name) e ⊎ ((e ≡ no_address ns name) × (deadline ≤ time))

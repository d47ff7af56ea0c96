-- ===== src/Exec/Keeps.antt =====
-- Invariants of procedures: what holds before holds after, whether the procedure returns or raises.
use saas_ntier_lab.Prelude.{
  ℕ, String, ◌≡◌, refl, Bool, true, false, none, List, arith, ◌∙◌, [], ◌∷◌, ◌++◌, if◌then◌else◌,
}
use mathlib.Core.List.{append-nil}
use saas_ntier_lab.Errors.{Result, ok, err, Error}
use saas_ntier_lab.Store.{Fields}
use saas_ntier_lab.Store.Invariant.{IsRegistry, upsert-IsRegistry, delete-IsRegistry}
use saas_ntier_lab.Exec.{
  Platform, World, Exec, Call, command, fed, wrote, AwsCall, continue, ◌>>=◌, pure, raise, catch,
  handle, lift, store_get, store_upsert, store_delete, spawn, aws_call, sleep_for, tofu_outputs,
  capture_of, feed_to, read_text, write_text, choose, time_now, is_file, fetch_url, which_of,
}

pub record Keeps {p : Platform} {A : Type 0} (P : World p → Type 0) (m : Exec p A) : Type 0 where
  pub at : (w : World p) → P w → P (m w).1

module _ {p : Platform} {P : World p → Type 0} where
  pub Keeps-pure : {A : Type 0} (a : A) → Keeps P (pure {p = p} a)
  Keeps-pure a = record { at = λ w h. h }

  pub Keeps-raise : {A : Type 0} (e : Error) → Keeps P (raise {p = p} {A = A} e)
  Keeps-raise e = record { at = λ w h. h }

  pub Keeps-lift : {A : Type 0} (r : Result A) → Keeps P (lift {p = p} r)
  Keeps-lift r = record { at = λ w h. h }

  pub Keeps-if :
      {A : Type 0} (b : Bool) (m n : Exec p A)
      → Keeps P m
      → Keeps P n
      → Keeps P (if b then m else n)
  Keeps-if true m n km kn = km
  Keeps-if false m n km kn = kn

  pub Keeps-bind :
      {A B : Type 0} (m : Exec p A) (f : A → Exec p B)
      → Keeps P m
      → ((a : A) → Keeps P (f a))
      → Keeps P (m >>= f)
  Keeps-bind {A} m f km kf = record { at = λ w h. go (m w).0 (m w).1 (km.at w h) }
    where
      go : (r : Result A) (w : World p) → P w → P (continue r f w).1
      go (ok a) w h = (kf a).at w h
      go (err e) w h = h

  pub Keeps-catch :
      {A : Type 0} (m : Exec p A) (h : Error → Exec p A)
      → Keeps P m
      → ((e : Error) → Keeps P (h e))
      → Keeps P (catch m h)
  Keeps-catch {A} m h km kh = record { at = λ w q. go (m w).0 (m w).1 (km.at w q) }
    where
      go : (r : Result A) (w : World p) → P w → P (handle r h w).1
      go (ok a) w q = q
      go (err e) w q = (kh e).at w q

  pub Keeps-store_get : (k : String) → Keeps P (store_get {p = p} k)
  unfolding store_get
  Keeps-store_get k = record { at = λ w h. h }

pub ruleset keeps_rules =
    (Keeps-pure, Keeps-raise, Keeps-lift, Keeps-if, Keeps-bind, Keeps-catch, Keeps-store_get)

-- The registry's invariant.
abbrev pub Registered : (p : Platform) → World p → Type 0
Registered p w = IsRegistry w.table

module _ {p : Platform} where
  pub upsert-Registered : (k : String) (f : Fields) → Keeps (Registered p) (store_upsert k f)
  unfolding store_upsert
  upsert-Registered k f = record {
    at = λ w h. upsert-IsRegistry (p.utcnow w.ext).0 k none f w.table h;
  }

  pub delete-Registered : (k : String) → Keeps (Registered p) (store_delete k)
  unfolding store_delete
  delete-Registered k = record { at = λ w h. delete-IsRegistry k w.table h }

  pub spawn-Registered : (c : List String) → Keeps (Registered p) (spawn c)
  unfolding spawn
  spawn-Registered c = record { at = λ w h. h }

  pub aws_call-Registered : (c : AwsCall) → Keeps (Registered p) (aws_call c)
  unfolding aws_call
  aws_call-Registered c = record { at = λ w h. h }

  pub sleep_for-Registered : (n : ℕ) → Keeps (Registered p) (sleep_for n)
  unfolding sleep_for
  sleep_for-Registered n = record { at = λ w h. h }

  pub tofu_outputs-Registered : Keeps (Registered p) (tofu_outputs)
  unfolding tofu_outputs
  tofu_outputs-Registered = record { at = λ w h. h }

  pub capture-Registered : (c : List String) → Keeps (Registered p) (capture_of c)
  unfolding capture_of
  capture-Registered c = record { at = λ w h. h }

  pub feed-Registered : (c : List String) (s : String) → Keeps (Registered p) (feed_to c s)
  unfolding feed_to
  feed-Registered c s = record { at = λ w h. h }

  pub read-Registered : (f : String) → Keeps (Registered p) (read_text f)
  unfolding read_text
  read-Registered f = record { at = λ w h. h }

  pub write-Registered : (f s : String) → Keeps (Registered p) (write_text f s)
  unfolding write_text
  write-Registered f s = record { at = λ w h. h }

  pub choose-Registered : (s : String) → Keeps (Registered p) (choose s)
  unfolding choose
  choose-Registered s = record { at = λ w h. h }

  pub time-Registered : Keeps (Registered p) time_now
  unfolding time_now
  time-Registered = record { at = λ w h. h }

  pub is_file-Registered : (f : String) → Keeps (Registered p) (is_file f)
  unfolding is_file
  is_file-Registered f = record { at = λ w h. h }

  pub fetch-Registered : (u : String) → Keeps (Registered p) (fetch_url u)
  unfolding fetch_url
  fetch-Registered u = record { at = λ w h. h }

  pub which-Registered : (n : String) → Keeps (Registered p) (which_of n)
  unfolding which_of
  which-Registered n = record { at = λ w h. h }

pub ruleset registered_rules = (
  keeps_rules, upsert-Registered, delete-Registered, spawn-Registered, aws_call-Registered,
  sleep_for-Registered, tofu_outputs-Registered, capture-Registered, feed-Registered,
  read-Registered, write-Registered, choose-Registered, time-Registered, is_file-Registered,
  fetch-Registered, which-Registered,
)

-- The calls made so far that a test selects are those of `l`.
abbrev pub only : (Call → Bool) → List Call → List Call
only q [] = []
only q (c ∷ l) = let rest = only q l in if q c then c ∷ rest else rest

pub record Logged (p : Platform) (q : Call → Bool) (l : List Call) (w : World p) : Type 0 where
  pub same : only q w.log ≡ l

only-append : (q : Call → Bool) (xs ys : List Call) → only q (xs ++ ys) ≡ only q xs ++ only q ys
only-append q [] ys = refl
only-append q (x ∷ xs) ys = ground (arith, only-append q xs ys)

only_skips :
    (q : Call → Bool) (xs : List Call) (c : Call) → q c ≡ false → only q (xs ++ c ∷ []) ≡ only q xs
only_skips q xs c h = rw only-append (rw h (append-nil (only q xs)))

-- A procedure that makes no call of those that the test selects keeps `Logged`.
module _ {p : Platform} {q : Call → Bool} {l : List Call} where
  pub upsert-Logged : (k : String) (f : Fields) → Keeps (Logged p q l) (store_upsert k f)
  unfolding store_upsert
  upsert-Logged k f = record { at = λ w h. record { same = h.same } }

  pub delete-Logged : (k : String) → Keeps (Logged p q l) (store_delete k)
  unfolding store_delete
  delete-Logged k = record { at = λ w h. record { same = h.same } }

  pub spawn-Logged : (c : List String) → q (command c) ≡ false → Keeps (Logged p q l) (spawn c)
  unfolding spawn
  spawn-Logged c n = record {
    at = λ w h. record { same = only_skips q w.log (command c) n ∙ h.same };
  }

  pub sleep_for-Logged : (n : ℕ) → Keeps (Logged p q l) (sleep_for n)
  unfolding sleep_for
  sleep_for-Logged n = record { at = λ w h. record { same = h.same } }

  pub tofu_outputs-Logged : Keeps (Logged p q l) tofu_outputs
  unfolding tofu_outputs
  tofu_outputs-Logged = record { at = λ w h. record { same = h.same } }

  pub capture-Logged :
      (c : List String) → q (command c) ≡ false → Keeps (Logged p q l) (capture_of c)
  unfolding capture_of
  capture-Logged c n = record {
    at = λ w h. record { same = only_skips q w.log (command c) n ∙ h.same };
  }

  pub feed-Logged :
      (c : List String) (s : String) → q (fed c s) ≡ false → Keeps (Logged p q l) (feed_to c s)
  unfolding feed_to
  feed-Logged c s n = record {
    at = λ w h. record { same = only_skips q w.log (fed c s) n ∙ h.same };
  }

  pub write-Logged : (f s : String) → q (wrote f s) ≡ false → Keeps (Logged p q l) (write_text f s)
  unfolding write_text
  write-Logged f s n = record {
    at = λ w h. record { same = only_skips q w.log (wrote f s) n ∙ h.same };
  }

  pub time-Logged : Keeps (Logged p q l) time_now
  unfolding time_now
  time-Logged = record { at = λ w h. record { same = h.same } }

pub ruleset logged_rules =
    (keeps_rules, upsert-Logged, delete-Logged, spawn-Logged, sleep_for-Logged, tofu_outputs-Logged)

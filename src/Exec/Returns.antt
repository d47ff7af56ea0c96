-- ===== src/Exec/Returns.antt =====
-- Postconditions: what holds of the result and of the state whenever a procedure returns.
use mathlib.Core.Path.{subst}
use saas_ntier_lab.Prelude.{
  String, ◌≡◌, refl, ◌∙◌, Bool, true, false, if◌then◌else◌, Option, none, some, eq_refl,
}
use saas_ntier_lab.Errors.{Result, ok, err, Error}
use saas_ntier_lab.Store
use saas_ntier_lab.Store.{Row, Fields}
use saas_ntier_lab.Store.Laws.{get-upsert}
use saas_ntier_lab.Store.Versions.{stored, upsert-stored}
use saas_ntier_lab.Exec.{
  Platform, World, Exec, pure, lift, continue, ◌>>=◌, catch, handle, store_upsert,
}
use saas_ntier_lab.Exec.Ends.{Fails}

pub record Returns {p : Platform} {A : Type 0} (Q : A → World p → Type 0) (m : Exec p A)
    : Type 0 where
  pub at : (w : World p) (a : A) → (m w).0 ≡ ok a → Q a (m w).1

module _ {p : Platform} {A B : Type 0} {R : A → World p → Type 0} {Q : B → World p → Type 0} where
  pub Returns-bind :
      (m : Exec p A) (f : A → Exec p B)
      → Returns R m
      → ((a : A) (w : World p) → R a w → (b : B) → (f a w).0 ≡ ok b → Q b (f a w).1)
      → Returns Q (m >>= f)
  Returns-bind m f km kf = record { at = λ w. go (m w).0 (m w).1 (km.at w) }
    where
      go :
          (r : Result A) (w : World p)
          → ((a : A) → r ≡ ok a → R a w)
          → (b : B) → (continue r f w).0 ≡ ok b
          → Q b (continue r f w).1
      go (ok a) w k b h = kf a w (k a refl) b h
      go (err e) w k b h = cc

-- A procedure that returns has returned from its first step, and is the rest from there.
module _ {p : Platform} {A B : Type 0} where
  pub >>=-eq-ok :
      (m : Exec p A) (f : A → Exec p B) (w : World p) (b : B)
      → ((m >>= f) w).0 ≡ ok b
      → (a : A) × ((m w).0 ≡ ok a) × ((f a (m w).1).0 ≡ ok b) × ((m >>= f) w ≡ f a (m w).1)
  >>=-eq-ok m f w b = go (m w).0 (m w).1
    where
      go :
          (r : Result A) (v : World p)
          → (continue r f v).0 ≡ ok b
          → (a : A) × (r ≡ ok a) × ((f a v).0 ≡ ok b) × (continue r f v ≡ f a v)
      go (ok a) v h = (a, refl, h, refl)
      go (err e) v h = cc

module _ {p : Platform} {A B : Type 0} {Q : B → World p → Type 0} where
  pub Returns-rest :
      (m : Exec p A) (f : A → Exec p B) → ((a : A) → Returns Q (f a)) → Returns Q (m >>= f)
  Returns-rest m f kf = record { at = λ w. go (m w).0 (m w).1 }
    where
      go : (r : Result A) (w : World p) (b : B) → (continue r f w).0 ≡ ok b → Q b (continue r f w).1
      go (ok a) w b h = (kf a).at w b h
      go (err e) w b h = cc

module _ {p : Platform} {A : Type 0} {Q : A → World p → Type 0} where
  pub Returns-then :
      (b : Bool) (m n : Exec p A) → b ≡ true → Returns Q m → Returns Q (if b then m else n)
  Returns-then true m n t k = k
  Returns-then false m n t k = cc

  pub Returns-pure : (a : A) → ((w : World p) → Q a w) → Returns Q (pure a)
  Returns-pure a q = record { at = λ w b h. let same : a ≡ b = cc in subst (λ x. Q x w) same (q w) }

  pub Returns-weaken :
      {R : A → World p → Type 0} (m : Exec p A)
      → Returns R m
      → ((a : A) (w : World p) → R a w → Q a w)
      → Returns Q m
  Returns-weaken m k q = record { at = λ w a h. q a (m w).1 (k.at w a h) }

  pub Returns-lift :
      (r : Result A) → ((a : A) (w : World p) → r ≡ ok a → Q a w) → Returns Q (lift r)
  Returns-lift r q = record { at = λ w a h. q a w h }

  pub Returns-if :
      (b : Bool) (m n : Exec p A) → Returns Q m → Returns Q n → Returns Q (if b then m else n)
  Returns-if true m n km kn = km
  Returns-if false m n km kn = kn

  pub Returns-catch :
      (m : Exec p A) (h : Error → Exec p A)
      → Returns Q m
      → ((e : Error) → Fails (h e))
      → Returns Q (catch m h)
  Returns-catch m h km fh = record { at = λ w. go (m w).0 (m w).1 (km.at w) }
    where
      go :
          (r : Result A) (w : World p)
          → ((a : A) → r ≡ ok a → Q a w)
          → (a : A) → (handle r h w).0 ≡ ok a
          → Q a (handle r h w).1
      go (ok b) w k a q = k a q
      go (err e) w k a q = let (e', f) = (fh e).at w in cc (f, q)

-- Facts that do not depend on the state.
module _ {p : Platform} {Q : Type 0} where
  pub Returns-first :
      {A B : Type 0} (m : Exec p A) (f : A → Exec p B)
      → Returns (λ a (w : World p). Q) m
      → Returns (λ b (w : World p). Q) (m >>= f)
  Returns-first m f k = Returns-bind m f k (λ a w q b h. q)

  pub Returns-either :
      {A : Type 0} (m : Exec p A) (h : Error → Exec p A)
      → Returns (λ a (w : World p). Q) m
      → ((e : Error) → Returns (λ a (w : World p). Q) (h e))
      → Returns (λ a (w : World p). Q) (catch m h)
  Returns-either {A} m h km kh = record { at = λ w. go (m w).0 (m w).1 (km.at w) }
    where
      go :
          (r : Result A) (w : World p)
          → ((a : A) → r ≡ ok a → Q)
          → (a : A) → (handle r h w).0 ≡ ok a
          → Q
      go (ok b) w k a q = k b refl
      go (err e) w k a q = (kh e).at w a q

-- The row that `store.upsert` returns is in the registry, and is the one that is described by
-- `stored`.
pub record IsStored {p : Platform} (k : String) (f : Fields) (r : Row) (w : World p) : Type 0 where
  pub now : String
  pub before : Option Row
  pub row : r ≡ stored now k f before
  pub found : Store.get w.table k ≡ some r

pub upsert-Returns :
    {p : Platform} (k : String) (f : Fields) → Returns (IsStored {p = p} k f) (store_upsert k f)
unfolding store_upsert
upsert-Returns {p} k f = record {
  at = λ w r h.
      let now : String = (p.utcnow w.ext).0 in
      record {
        now = now;
        before = Store.get w.table k;
        row = upsert-stored now k none f w.table r h;
        found = get-upsert now k none f w.table r k h ∙ rw (eq_refl k);
      };
}

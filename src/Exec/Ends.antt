-- ===== src/Exec/Ends.antt =====
-- How a procedure ends: it always raises, or it achieves something whenever it returns.
use saas_ntier_lab.Prelude.{
  String, ◌≡◌, refl, ◌∙◌, Bool, true, false, none, some, eq_refl, if◌then◌else◌,
}
use saas_ntier_lab.Errors.{Result, ok, err, Error}
use saas_ntier_lab.Store
use saas_ntier_lab.Store.{Row, Fields, Desired, is_desired}
use saas_ntier_lab.Store.Invariant.{delete-get}
use saas_ntier_lab.Store.Laws.{get-upsert}
use saas_ntier_lab.Store.Versions.{stored, stored_desired, stored_kept, upsert_accepts}
use saas_ntier_lab.Ids.Grammar.{IsTenantId}
use saas_ntier_lab.Exec.{
  Platform, World, Exec, continue, ◌>>=◌, pure, raise, catch, handle, store_upsert, store_delete,
}
use saas_ntier_lab.Exec.Keeps.{Keeps}

-- `m` raises, from any state.
pub record Fails {p : Platform} {A : Type 0} (m : Exec p A) : Type 0 where
  pub at : (w : World p) → (e : Error) × ((m w).0 ≡ err e)

-- Whenever `m` returns, `Q` holds of the state that it leaves.
pub record Achieves {p : Platform} {A : Type 0} (Q : World p → Type 0) (m : Exec p A) : Type 0 where
  pub at : (w : World p) (a : A) → (m w).0 ≡ ok a → Q (m w).1

module _ {p : Platform} {A B : Type 0} (m : Exec p A) (f : A → Exec p B) where
  pub Fails-first : Fails m → Fails (m >>= f)
  Fails-first k = record { at = λ w. let (e, h) = k.at w in (e, rw h) }

  pub Fails-rest : ((a : A) → Fails (f a)) → Fails (m >>= f)
  Fails-rest k = record { at = λ w. go (m w).0 (m w).1 }
    where
      go : (r : Result A) (w : World p) → (e : Error) × ((continue r f w).0 ≡ err e)
      go (ok a) w = (k a).at w
      go (err e) w = (e, refl)

  -- What follows a procedure that always raises is not run.
  pub Keeps-first : {P : World p → Type 0} → Keeps P m → Fails m → Keeps P (m >>= f)
  Keeps-first {P} km fm = record { at = λ w h. go (m w).0 (m w).1 (fm.at w) (km.at w h) }
    where
      go : (r : Result A) (w : World p) → (e : Error) × (r ≡ err e) → P w → P (continue r f w).1
      go (ok a) w (e, q) h = cc
      go (err e) w q h = h

  pub Achieves-rest : {Q : World p → Type 0} → ((a : A) → Achieves Q (f a)) → Achieves Q (m >>= f)
  Achieves-rest {Q} k = record { at = λ w. go (m w).0 (m w).1 }
    where
      go : (r : Result A) (w : World p) (b : B) → (continue r f w).0 ≡ ok b → Q (continue r f w).1
      go (ok a) w b h = (k a).at w b h
      go (err e) w b h = cc

module _ {p : Platform} where
  pub Fails-catch :
      {A : Type 0} (m : Exec p A) (h : Error → Exec p A)
      → Fails m
      → ((e : Error) → Fails (h e))
      → Fails (catch m h)
  Fails-catch m h fm fh = record {
    at = λ w. let (e, q) = fm.at w in let (e', q') = (fh e).at (m w).1 in (e', rw q q');
  }

  -- A handler that always raises achieves nothing by itself.
  pub Achieves-catch :
      {A : Type 0} {Q : World p → Type 0} (m : Exec p A) (h : Error → Exec p A)
      → Achieves Q m
      → ((e : Error) → Fails (h e))
      → Achieves Q (catch m h)
  Achieves-catch {A} {Q} m h km fh = record { at = λ w. go (m w).0 (m w).1 (km.at w) }
    where
      go :
          (r : Result A) (w : World p)
          → ((a : A) → r ≡ ok a → Q w)
          → (a : A) → (handle r h w).0 ≡ ok a
          → Q (handle r h w).1
      go (ok a) w k b q = k a refl
      go (err e) w k b q = let (e', f) = (fh e).at w in cc (f, q)

  pub Fails-if :
      {A : Type 0} (b : Bool) (m n : Exec p A) → Fails m → Fails n → Fails (if b then m else n)
  Fails-if true m n fm fn = fm
  Fails-if false m n fm fn = fn

  pub Fails-raise : {A : Type 0} (e : Error) → Fails (raise {p = p} {A = A} e)
  Fails-raise e = record { at = λ w. (e, refl) }

  -- After `store.delete` there is no row.
  pub delete-Achieves :
      (k : String)
      → Achieves (λ (w : World p). Store.get w.table k ≡ none) (store_delete k >>= λ _. pure tt)
  unfolding store_delete
  delete-Achieves k = record { at = λ w a h. delete-get k w.table }

  -- A write of a valid desired status is accepted, and is what a read returns next.
  pub upsert-stores :
      (k : String) (f : Fields) (d : Desired) (w : World p)
      → IsTenantId k
      → f.desired_status ≡ some d
      → is_desired d ≡ true
      → (r : Row) × ((store_upsert k f w).0 ≡ ok r)
        × (r ≡ stored (p.utcnow w.ext).0 k f (Store.get w.table k))
        × (Store.get (store_upsert k f w).1.table k ≡ some r)
  unfolding store_upsert
  upsert-stores k f d w v given ok_d =
      let now : String = (p.utcnow w.ext).0 in
      let valid = stored_desired now k f d (Store.get w.table k) given in
      let accepted = upsert_accepts now k f w.table v (rw valid ok_d) in
      (
        stored now k f (Store.get w.table k),
        accepted,
        refl,
        get-upsert now k none f w.table (stored now k f (Store.get w.table k)) k accepted
            ∙ rw (eq_refl k),
      )

  -- So is a write of no desired status to a row that has a valid one.
  pub upsert-keeps :
      (k : String) (f : Fields) (old : Row) (w : World p)
      → IsTenantId k
      → f.desired_status ≡ none
      → Store.get w.table k ≡ some old
      → is_desired old.desired_status ≡ true
      → (r : Row) × ((store_upsert k f w).0 ≡ ok r)
        × (r ≡ stored (p.utcnow w.ext).0 k f (some old))
        × (Store.get (store_upsert k f w).1.table k ≡ some r)
  unfolding store_upsert
  upsert-keeps k f old w v given found ok_d =
      let now : String = (p.utcnow w.ext).0 in
      let kept = stored_kept now k f old given in
      let accepted = upsert_accepts now k f w.table v (rw found (rw kept ok_d)) in
      (
        stored now k f (Store.get w.table k),
        accepted,
        rw found,
        get-upsert now k none f w.table (stored now k f (Store.get w.table k)) k accepted
            ∙ rw (eq_refl k),
      )

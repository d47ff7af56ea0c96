-- ===== src/Exec/Undone.antt =====
-- Procedures whose errors leave the registry as it was.
use saas_ntier_lab.Prelude.{String, none, ◌≡◌, refl, ◌∙◌}
use saas_ntier_lab.Errors.{Result, ok, err, Error}
use saas_ntier_lab.Store.{Table, Fields}
use saas_ntier_lab.Store.Laws.{upsert-err}
use saas_ntier_lab.Exec.{Platform, World, Exec, continue, ◌>>=◌, raise, pure, store_upsert}
use saas_ntier_lab.Exec.Keeps.{Keeps}
use saas_ntier_lab.Exec.Frame.{Tabled}

-- Where the procedure raises, the registry is as it was.
pub record RollsBack {p : Platform} {A : Type 0} (m : Exec p A) : Type 0 where
  pub at : (w : World p) (e : Error) → (m w).0 ≡ err e → (m w).1.table ≡ w.table

module _ {p : Platform} where
  pub bind-RollsBack :
      {A B : Type 0} (m : Exec p A) (f : A → Exec p B)
      → ((t : Table) → Keeps (Tabled p (λ t'. t' ≡ t)) m)
      → ((a : A) → RollsBack (f a))
      → RollsBack (m >>= f)
  bind-RollsBack {A} m f km rf = record {
    at =
        λ w e h. go w.table (m w).0 (m w).1 ((km w.table).at w (record { holds = refl })).holds e h;
  }
    where
      go :
          (t : Table) (r : Result A) (w : World p)
          → w.table ≡ t
          → (e : Error) → (continue r f w).0 ≡ err e
          → (continue r f w).1.table ≡ t
      go t (ok a) w s e h = (rf a).at w e h ∙ s
      go t (err _) w s e h = s

  pub upsert-RollsBack : (k : String) (f : Fields) → RollsBack (store_upsert {p = p} k f)
  unfolding store_upsert
  upsert-RollsBack k f = record { at = λ w e h. upsert-err (p.utcnow w.ext).0 k none f w.table e h }

  pub raise-RollsBack : {A : Type 0} (e : Error) → RollsBack (raise {p = p} {A = A} e)
  raise-RollsBack e = record { at = λ w e' h. refl }

  pub pure-RollsBack : {A : Type 0} (a : A) → RollsBack (pure {p = p} a)
  pure-RollsBack a = record { at = λ w e' h. refl }

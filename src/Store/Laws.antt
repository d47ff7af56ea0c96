-- ===== src/Store/Laws.antt =====
-- What a read of the registry returns after a write.
use mathlib.Core.Path.{subst}
use saas_ntier_lab.Prelude.{
  ℕ, String, ◌≡◌, refl, sym, true, Option, none, some, [], ◌∷◌, arith, eq_iff, ◌==◌, if◌then◌else◌,
  inl, inr,
}
use saas_ntier_lab.Errors.{Result, ok, err, Error, Result-cases}
use saas_ntier_lab.Ids.{validate_tenant_id}
use saas_ntier_lab.Ids.Grammar.{IsTenantId, validate_tenant_id-IsTenantId, validate_of_IsTenantId}
use saas_ntier_lab.Store.Rows.{Row, Fields, is_desired, merge, fresh}
use saas_ntier_lab.Store.{
  Table, get, put, remove, upsert, upsert_valid, upsert_found, update_row, insert_row,
}

pub get-put :
    (r : Row) (t : Table) (k : String) → get (put r t) k ≡ (if r.id == k then some r else get t k)
unfolding get put
get-put r [] k = refl
get-put r (x ∷ t) k = ground (arith, get-put r t k, eq_iff x.id r.id, eq_iff x.id k, eq_iff r.id k)

pub get-remove :
    (k : String) (t : Table) (j : String) → get (remove k t) j ≡ (if k == j then none else get t j)
unfolding get remove
get-remove k [] j = ground arith
get-remove k (x ∷ t) j = ground (arith, get-remove k t j, eq_iff x.id k, eq_iff x.id j, eq_iff k j)

-- A row is found under its own id.
pub id_of_get : (t : Table) (k : String) (r : Row) → get t k ≡ some r → r.id ≡ k
unfolding get
id_of_get [] k r h = cc
id_of_get (x ∷ t) k r h = ground (arith, id_of_get t k r, eq_iff x.id k)

-- What an accepted `upsert` has done to the table.
pub record IsWritten (tenant_id : String) (t : Table) (r : Row) (t' : Table) : Type 0 where
  pub written : t' ≡ put r t
  pub id : r.id ≡ tenant_id
  pub desired : is_desired r.desired_status ≡ true

insert_row-IsWritten :
    (now tenant_id : String) (f : Fields) (t : Table) (r : Row)
    → (insert_row now tenant_id f t).0 ≡ ok r
    → IsWritten tenant_id t r (insert_row now tenant_id f t).1
unfolding insert_row fresh
insert_row-IsWritten now tenant_id f t r h = ground arith

pub update_row-IsWritten :
    (now : String) (expected : Option ℕ) (f : Fields) (row : Row) (t : Table) (r : Row)
    → (update_row now expected f row t).0 ≡ ok r
    → IsWritten row.id t r (update_row now expected f row t).1
unfolding update_row merge
update_row-IsWritten now expected f row t r h = ground arith

upsert_found-IsWritten :
    (now tenant_id : String) (expected : Option ℕ) (f : Fields) (t : Table) (o : Option Row)
    (r : Row)
    → get t tenant_id ≡ o
    → (upsert_found now tenant_id expected f t o).0 ≡ ok r
    → IsWritten tenant_id t r (upsert_found now tenant_id expected f t o).1
unfolding upsert_found
upsert_found-IsWritten now tenant_id expected f t none r g h =
    insert_row-IsWritten now tenant_id f t r h
upsert_found-IsWritten now tenant_id expected f t (some row) r g h =
    subst (λ k. IsWritten k t r (update_row now expected f row t).1) (id_of_get t tenant_id row g)
      (update_row-IsWritten now expected f row t r h)

pub upsert-eq_of_valid :
    (now tenant_id : String) (expected : Option ℕ) (f : Fields) (t : Table)
    → IsTenantId tenant_id
    → upsert now tenant_id expected f t ≡ upsert_found now tenant_id expected f t (get t tenant_id)
unfolding upsert upsert_valid
upsert-eq_of_valid now tenant_id expected f t v = rw (validate_of_IsTenantId tenant_id v)

-- An accepted `upsert` had a valid tenant id.
pub upsert-IsTenantId :
    (now tenant_id : String) (expected : Option ℕ) (f : Fields) (t : Table) (r : Row)
    → (upsert now tenant_id expected f t).0 ≡ ok r
    → IsTenantId tenant_id
unfolding upsert upsert_valid
upsert-IsTenantId now tenant_id expected f t r h =
    elim (Result-cases (validate_tenant_id (some tenant_id))) [
      | inl (s, e) ↦
          let (p, q) = (validate_tenant_id-IsTenantId (some tenant_id) s).0 e in
          let same : tenant_id ≡ s = cc in subst IsTenantId (sym same) q
      | inr (e, p) ↦ absurd (ground arith)
    ]

pub upsert-IsWritten :
    (now tenant_id : String) (expected : Option ℕ) (f : Fields) (t : Table) (r : Row)
    → (upsert now tenant_id expected f t).0 ≡ ok r
    → IsWritten tenant_id t r (upsert now tenant_id expected f t).1
upsert-IsWritten now tenant_id expected f t r h =
    let v = upsert-IsTenantId now tenant_id expected f t r h in
    let e = upsert-eq_of_valid now tenant_id expected f t v in
    rw e (upsert_found-IsWritten now tenant_id expected f t (get t tenant_id) r refl (rw e at h))

pub update_row-err :
    (now : String) (expected : Option ℕ) (f : Fields) (row : Row) (t : Table) (e : Error)
    → (update_row now expected f row t).0 ≡ err e
    → (update_row now expected f row t).1 ≡ t
unfolding update_row
update_row-err now expected f row t e h = ground arith

upsert_found-err :
    (now tenant_id : String) (expected : Option ℕ) (f : Fields) (t : Table) (o : Option Row)
    (e : Error)
    → (upsert_found now tenant_id expected f t o).0 ≡ err e
    → (upsert_found now tenant_id expected f t o).1 ≡ t
unfolding upsert_found insert_row
upsert_found-err now tenant_id expected f t none e h = ground arith
upsert_found-err now tenant_id expected f t (some row) e h = update_row-err now expected f row t e h

-- A refused `upsert` has changed nothing.
pub upsert-err :
    (now tenant_id : String) (expected : Option ℕ) (f : Fields) (t : Table) (e : Error)
    → (upsert now tenant_id expected f t).0 ≡ err e
    → (upsert now tenant_id expected f t).1 ≡ t
unfolding upsert
upsert-err now tenant_id expected f t e h = valid (validate_tenant_id (some tenant_id)) h
  where
    valid :
        (v : Result String)
        → (upsert_valid now expected f t v).0 ≡ err e
        → (upsert_valid now expected f t v).1 ≡ t
    valid (ok s) h = upsert_found-err now s expected f t (get t s) e h
    valid (err _) h = refl

-- After an accepted `upsert` a read of that tenant returns the row that the call returned, and a
-- read of any other tenant returns what it returned before.
pub get-upsert :
    (now tenant_id : String) (expected : Option ℕ) (f : Fields) (t : Table) (r : Row) (j : String)
    → (upsert now tenant_id expected f t).0 ≡ ok r
    → get (upsert now tenant_id expected f t).1 j ≡ (if tenant_id == j then some r else get t j)
get-upsert now tenant_id expected f t r j h =
    let w = upsert-IsWritten now tenant_id expected f t r h in
    rw (w.written) (rw get-put (rw (w.id)))

-- ===== src/Store/Invariant.antt =====
-- The invariant of the registry of control-plane/store.py, and its transactions.
use mathlib.Core.Path.{subst}
use saas_ntier_lab.Prelude.{
  ℕ, ◌≤◌, String, ◌≡◌, refl, sym, true, ◌∙◌, Option, none, some, [], ◌∷◌, arith, eq_iff, Bool-cases,
  inl, inr, ◌==◌, eq_refl, Option-cases,
}
use saas_ntier_lab.Errors.{Result-cases}
use saas_ntier_lab.Ids.Grammar.{IsTenantId}
use saas_ntier_lab.Store.Rows.{Row, Fields, is_desired, fresh}
use saas_ntier_lab.Store.{
  Table, get, put, remove, upsert, upsert_found, update_row, insert_row, delete, delete_found,
}
use saas_ntier_lab.Store.Laws.{
  get-put, get-remove, update_row-IsWritten, update_row-err, upsert-err, upsert-IsTenantId,
  upsert-eq_of_valid,
}

-- The row has a valid tenant id, one of the three desired statuses, and a version from 1 on.
pub record IsSound (r : Row) : Type 0 where
  pub id : IsTenantId r.id
  pub desired : is_desired r.desired_status ≡ true
  pub version : 1 ≤ r.version

-- All rows are sound, and no two have the same id.
abbrev pub IsRegistry : Table → Type 0
IsRegistry [] = Unit
IsRegistry (r ∷ t) = IsSound r × (get t r.id ≡ none) × IsRegistry t

pub get-IsSound : (t : Table) (k : String) (r : Row) → IsRegistry t → get t k ≡ some r → IsSound r
unfolding get
get-IsSound [] k r v h = cc
get-IsSound (x ∷ t) k r v h = elim (Bool-cases (x.id == k)) [
  | inl same ↦ let e : x ≡ r = ground arith in subst IsSound e v.0
  | inr other ↦ get-IsSound t k r v.2 (rw other at h)
]

pub put-IsRegistry : (r : Row) (t : Table) → IsSound r → IsRegistry t → IsRegistry (put r t)
unfolding put get
put-IsRegistry r [] s v = (s, refl, tt)
put-IsRegistry r (x ∷ t) s v = elim (Bool-cases (x.id == r.id)) [
  | inl same ↦ rw same (s, ground (arith, eq_iff x.id r.id), v.2)
  | inr other ↦ rw other (
    v.0,
    ground (arith, get-put r t x.id, eq_iff x.id r.id, eq_iff r.id x.id),
    put-IsRegistry r t s v.2,
  )
]

pub remove-IsRegistry : (k : String) (t : Table) → IsRegistry t → IsRegistry (remove k t)
unfolding remove
remove-IsRegistry k [] v = tt
remove-IsRegistry k (x ∷ t) v = elim (Bool-cases (x.id == k)) [
  | inl same ↦ rw same (remove-IsRegistry k t v.2)
  | inr other ↦ rw other (v.0, ground (arith, get-remove k t x.id), remove-IsRegistry k t v.2)
]

fresh-IsSound :
    (now tenant_id : String) (f : Fields)
    → IsTenantId tenant_id
    → is_desired (fresh now tenant_id f).desired_status ≡ true
    → IsSound (fresh now tenant_id f)
fresh-IsSound now tenant_id f v d = record {
  id = unfold fresh in v;
  desired = d;
  version = unfold fresh in (omega arith);
}

insert_row-IsRegistry :
    (now tenant_id : String) (f : Fields) (t : Table)
    → IsTenantId tenant_id
    → IsRegistry t
    → IsRegistry (insert_row now tenant_id f t).1
unfolding insert_row
insert_row-IsRegistry now tenant_id f t i v =
    elim (Bool-cases (is_desired (fresh now tenant_id f).desired_status)) [
      | inl y ↦
          rw y (put-IsRegistry (fresh now tenant_id f) t (fresh-IsSound now tenant_id f i y) v)
      | inr n ↦ rw n v
    ]

update_row-IsRegistry :
    (now : String) (expected : Option ℕ) (f : Fields) (row : Row) (t : Table)
    → IsSound row
    → IsRegistry t
    → IsRegistry (update_row now expected f row t).1
update_row-IsRegistry now expected f row t s v =
    elim (Result-cases (update_row now expected f row t).0) [
      | inl (r, p) ↦
          let w = update_row-IsWritten now expected f row t r p in
          let n : 1 ≤ r.version = unfold update_row in ground (arith, s.version) in
          rw (w.written) (
            put-IsRegistry r t
              (record { id = subst IsTenantId (sym w.id) s.id; desired = w.desired; version = n })
              v)
      | inr (e, p) ↦ rw (update_row-err now expected f row t e p) v
    ]

-- Every `upsert`, accepted or not, keeps the invariant of the registry: valid and distinct tenant
-- ids, one of the three desired statuses, and versions from 1 on.
pub upsert-IsRegistry :
    (now tenant_id : String) (expected : Option ℕ) (f : Fields) (t : Table)
    → IsRegistry t
    → IsRegistry (upsert now tenant_id expected f t).1
upsert-IsRegistry now tenant_id expected f t v =
    elim (Result-cases (upsert now tenant_id expected f t).0) [
      | inl (r, p) ↦
          let i = upsert-IsTenantId now tenant_id expected f t r p in
          rw (upsert-eq_of_valid now tenant_id expected f t i) (found i (get t tenant_id) refl)
      | inr (e, p) ↦ rw (upsert-err now tenant_id expected f t e p) v
    ]
  where
    found :
        IsTenantId tenant_id
        → (o : Option Row) → get t tenant_id ≡ o
        → IsRegistry (upsert_found now tenant_id expected f t o).1
    found i none g = unfold upsert_found in insert_row-IsRegistry now tenant_id f t i v
    found i (some row) g =
        unfold upsert_found in
        update_row-IsRegistry now expected f row t (get-IsSound t tenant_id row v g) v

-- After a deletion there is no row under the id.
pub delete-get : (k : String) (t : Table) → get (delete k t).1 k ≡ none
unfolding delete
delete-get k t = elim (Option-cases (get t k)) [
  | inl p ↦ rw (p, delete_found) p
  | inr (r, p) ↦ rw (p, delete_found) (get-remove k t k ∙ rw (eq_refl k))
]

-- Deleting a tenant keeps the invariant.
pub delete-IsRegistry : (k : String) (t : Table) → IsRegistry t → IsRegistry (delete k t).1
unfolding delete
delete-IsRegistry k t v = found (get t k)
  where
    found : (o : Option Row) → IsRegistry (delete_found k t o).1
    found none = v
    found (some r) = remove-IsRegistry k t v

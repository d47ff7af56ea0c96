-- ===== src/Store/Versions.antt =====
-- Versions of a tenant's row in control-plane/store.py.
use saas_ntier_lab.Prelude.{
  ℕ, ◌+◌, String, ◌≡◌, ◌≢◌, refl, ◌∙◌, true, Option, none, some, arith, eq_refl,
}
use saas_ntier_lab.Errors.{ok, err, Error, Kind}
use saas_ntier_lab.Ids.Grammar.{IsTenantId}
use saas_ntier_lab.Store.Rows.{Row, Fields, Desired, is_desired, merge, fresh}
use saas_ntier_lab.Store.{Table, get, upsert, upsert_found, update_row, insert_row, conflict_error}
use saas_ntier_lab.Store.Laws.{get-upsert, upsert-IsTenantId, upsert-eq_of_valid}

-- The row that `upsert` stores.
abbrev pub stored : String → String → Fields → Option Row → Row
stored now tenant_id f none = fresh now tenant_id f
stored now tenant_id f (some old) = record (merge f old) {
  version = old.version + 1;
  updated_at = now;
}

pub stored_desired :
    (now tenant_id : String) (f : Fields) (d : Desired) (o : Option Row)
    → f.desired_status ≡ some d
    → (stored now tenant_id f o).desired_status ≡ d
unfolding fresh merge
stored_desired now tenant_id f d none h = ground arith
stored_desired now tenant_id f d (some old) h = ground arith

pub stored_kept :
    (now tenant_id : String) (f : Fields) (old : Row)
    → f.desired_status ≡ none
    → (stored now tenant_id f (some old)).desired_status ≡ old.desired_status
unfolding merge
stored_kept now tenant_id f old h = ground arith

upsert_found-stored :
    (now tenant_id : String) (expected : Option ℕ) (f : Fields) (t : Table) (o : Option Row)
    (r : Row)
    → (upsert_found now tenant_id expected f t o).0 ≡ ok r
    → r ≡ stored now tenant_id f o
unfolding upsert_found insert_row update_row
upsert_found-stored now tenant_id expected f t none r h = ground arith
upsert_found-stored now tenant_id expected f t (some old) r h = ground arith

-- An accepted `upsert` returns the row that is described by `stored`: for a tenant that is there its
-- row with the given fields replaced, the version counted up by one and the creation time kept; for
-- one that is not there a first version with the defaults.
pub upsert-stored :
    (now tenant_id : String) (expected : Option ℕ) (f : Fields) (t : Table) (r : Row)
    → (upsert now tenant_id expected f t).0 ≡ ok r
    → r ≡ stored now tenant_id f (get t tenant_id)
upsert-stored now tenant_id expected f t r h =
    let v = upsert-IsTenantId now tenant_id expected f t r h in
    let e = upsert-eq_of_valid now tenant_id expected f t v in
    upsert_found-stored now tenant_id expected f t (get t tenant_id) r (rw e at h)

update_row_stale :
    (now : String) (expected : ℕ) (f : Fields) (row : Row) (t : Table)
    → row.version ≢ expected
    → update_row now (some expected) f row t ≡ (err (conflict_error row.id row.version expected), t)
unfolding update_row
update_row_stale now expected f row t n = ground arith

-- An `upsert` that expects another version than the stored one is refused by a conflict.
upsert_conflict :
    (now tenant_id : String) (expected : ℕ) (f : Fields) (t : Table) (row : Row)
    → IsTenantId tenant_id
    → get t tenant_id ≡ some row
    → row.version ≢ expected
    → ((e : Error) × (upsert now tenant_id (some expected) f t ≡ (err e, t))
        × (e.kind ≡ Kind.conflict))
unfolding upsert_found
upsert_conflict now tenant_id expected f t row v g n = (
  conflict_error row.id row.version expected,
  rw (upsert-eq_of_valid now tenant_id (some expected) f t v)
      (rw g (update_row_stale now expected f row t n)),
  refl,
)

-- Without an expected version, `upsert` of a valid tenant id is accepted if the desired status
-- that it would store is one of the three, and it returns that row.
pub upsert_accepts :
    (now tenant_id : String) (f : Fields) (t : Table)
    → IsTenantId tenant_id
    → is_desired (stored now tenant_id f (get t tenant_id)).desired_status ≡ true
    → (upsert now tenant_id none f t).0 ≡ ok (stored now tenant_id f (get t tenant_id))
upsert_accepts now tenant_id f t v d =
    rw (upsert-eq_of_valid now tenant_id none f t v) (found (get t tenant_id) d)
  where
    found :
        (o : Option Row)
        → is_desired (stored now tenant_id f o).desired_status ≡ true
        → (upsert_found now tenant_id none f t o).0 ≡ ok (stored now tenant_id f o)
    found none d = unfold upsert_found insert_row in rw d
    found (some old) d = unfold upsert_found update_row in rw d

-- Optimistic concurrency. Two writers have read the same version of a tenant. Once the write of
-- the first is accepted, the write of the second, which expects that version, is refused by a
-- conflict, and the tenant's row stays the one that the first has written.
pub no_lost_update :
    (now now' tenant_id : String) (f g : Fields) (t : Table) (read first : Row)
    → get t tenant_id ≡ some read
    → (upsert now tenant_id (some read.version) f t).0 ≡ ok first
    → let t' = (upsert now tenant_id (some read.version) f t).1 in
      let second = upsert now' tenant_id (some read.version) g t' in
      (get second.1 tenant_id ≡ some first)
      × ((e : Error) × (second.0 ≡ err e) × (e.kind ≡ Kind.conflict))
no_lost_update now now' tenant_id f g t read first h a =
    let t' = (upsert now tenant_id (some read.version) f t).1 in
    let v = upsert-IsTenantId now tenant_id (some read.version) f t first a in
    let s = upsert-stored now tenant_id (some read.version) f t first a in
    let n : first.version ≡ read.version + 1 = ground (arith, s, h) in
    let g' : get t' tenant_id ≡ some first =
      get-upsert now tenant_id (some read.version) f t first tenant_id a ∙ rw (eq_refl tenant_id) in
    let (e, p, k) =
      upsert_conflict now' tenant_id read.version g t' first v g' (λ q. omega (arith, n, q)) in
    rw p (g', (e, refl, k))

-- ===== src/Store.antt =====
-- control-plane/store.py: the SQLite registry of tenants. A transaction is one function on the
-- table; a raise rolls it back, so an error comes with the table as it was. SQLite's own failures
-- (a lock held for longer than the timeout) are not modelled.
mod Rows
pub mod Laws
pub mod Invariant
pub mod Versions
pub mod Refinement
pub mod Legacy
pub use Rows.*
unfoldable pub use Rows.{merge, fresh, desired_or_inferred}
use saas_ntier_lab.Prelude.{
  ℕ, ◌+◌, String, Bool, true, false, not, Option, none, some, List, [], ◌∷◌, eqb, show_nat, repr,
  ◌==◌, ◌<>◌, or_else, sort_by, if◌then◌else◌,
}
use saas_ntier_lab.Errors.{Result, ok, err, Error, Kind}
use saas_ntier_lab.Ids.{validate_tenant_id}

abbrev pub Table : Type 0
Table = List Row

-- `SELECT * FROM tenants WHERE id = ?`; `TenantStore.get`
unfoldable pub get : Table → String → Option Row
get [] k = none
get (r ∷ t) k = if r.id == k then some r else get t k

-- `UPDATE … WHERE id=?` of the row with that id, or `INSERT`: `id` is the primary key
unfoldable pub put : Row → Table → Table
put r [] = r ∷ []
put r (x ∷ t) = if x.id == r.id then r ∷ t else x ∷ put r t

-- `DELETE FROM tenants WHERE id = ?`
unfoldable pub remove : String → Table → Table
remove k [] = []
remove k (x ∷ t) = let rest = remove k t in if x.id == k then rest else x ∷ rest

abbrev pub conflict_error : String → ℕ → ℕ → Error
conflict_error tenant_id have expected = record {
  kind = Kind.conflict;
  message =
      "tenant "
      <> tenant_id
      <> " version conflict: have "
      <> show_nat have
      <> ", expected "
      <> show_nat expected;
}

abbrev pub desired_error : Desired → Error
desired_error d = record {
  kind = Kind.validation;
  message =
      "invalid desired_status "
      <> repr (desired_text d)
      <> "; must be one of ('ACTIVE', 'SUSPENDED', 'GONE')";
}

-- `expected_version is not None and int(row["version"]) != expected_version`
abbrev pub is_stale : Option ℕ → ℕ → Bool
is_stale none have = false
is_stale (some expected) have = not (eqb have expected)

abbrev pub version_of : Option ℕ → ℕ
version_of none = 0
version_of (some n) = n

-- The branch of `upsert` for a row that is there: `current.update(fields)` and the `UPDATE`.
pub update_row : String → Option ℕ → Fields → Row → Table → Result Row × Table
unfolding merge
update_row now expected f row t =
    let current = record (merge f row) { updated_at = now; version = row.version + 1 } in
    if is_stale expected row.version
    then (err (conflict_error row.id row.version (version_of expected)), t)
    else if is_desired current.desired_status
    then (ok current, put current t)
    else (err (desired_error current.desired_status), t)

-- The branch for a row that is not there: the `INSERT` with its defaults.
pub insert_row : String → String → Fields → Table → Result Row × Table
unfolding fresh desired_or_inferred
insert_row now tenant_id f t =
    let item = fresh now tenant_id f in
    if is_desired item.desired_status
    then (ok item, put item t)
    else (err (desired_error item.desired_status), t)

pub upsert_found : String → String → Option ℕ → Fields → Table → Option Row → Result Row × Table
unfolding update_row insert_row
upsert_found now tenant_id expected f t none = insert_row now tenant_id f t
upsert_found now tenant_id expected f t (some row) = update_row now expected f row t

upsert_valid : String → Option ℕ → Fields → Table → Result String → Result Row × Table
unfolding upsert_found get
upsert_valid now expected f t (err e) = (err e, t)
upsert_valid now expected f t (ok tenant_id) =
    upsert_found now tenant_id expected f t (get t tenant_id)

-- `TenantStore.upsert`, at the time `now`
unfoldable pub upsert : String → String → Option ℕ → Fields → Table → Result Row × Table
unfolding upsert_valid validate_tenant_id
upsert now tenant_id expected f t =
    upsert_valid now expected f t (validate_tenant_id (some tenant_id))

pub delete_found : String → Table → Option Row → Bool × Table
delete_found tenant_id t none = (false, t)
delete_found tenant_id t (some r) = (true, remove tenant_id t)

-- `TenantStore.delete`; whether a row was deleted
unfoldable pub delete : String → Table → Bool × Table
unfolding delete_found
delete tenant_id t = delete_found tenant_id t (get t tenant_id)

-- `TenantStore.list`: `SELECT * FROM tenants ORDER BY id`
unfoldable pub list : Table → List Row
unfolding sort_by
list t = sort_by (λ (r : Row). r.id) t

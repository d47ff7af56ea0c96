-- ===== src/Store/Legacy/Laws.antt =====
-- What the import of control-plane/store.py brings into the registry.
use saas_ntier_lab.Prelude.{
  String, ◌≡◌, refl, ◌∙◌, sym, Option, none, some, List, [], ◌∷◌, lookup, arith, eq_iff, ◌==◌, true,
  false, if◌then◌else◌,
}
use saas_ntier_lab.Errors.{Result, ok, err}
use saas_ntier_lab.Ids.{validate_tenant_id}
use saas_ntier_lab.Ids.Grammar.{IsTenantId, validate_of_IsTenantId, validate_tenant_id-IsTenantId}
use saas_ntier_lab.Store.Rows.{Row, Status, infer_desired, is_desired}
use saas_ntier_lab.Store.{Table, get}
use saas_ntier_lab.Store.Laws.{get-put}
use saas_ntier_lab.Store.Refinement.{some_injective}
use saas_ntier_lab.Store.Invariant.{IsSound, IsRegistry, put-IsRegistry}
use saas_ntier_lab.Store.Legacy.{
  Meta, legacy_row, insert_or_ignore, insert_absent, insert_valid, import_entries,
}

inferred : (s : Status) → is_desired (infer_desired s) ≡ true
inferred Status.suspended = refl
inferred Status.deleting = refl
inferred Status.delete_failed = refl
inferred _ = refl

legacy_row-IsSound : (now k : String) (m : Meta) → IsTenantId k → IsSound (legacy_row now k m)
unfolding legacy_row
legacy_row-IsSound now k m v = record { id = v; desired = inferred _; version = omega arith }

ignore-IsRegistry :
    (r : Row) (t : Table) → IsSound r → IsRegistry t → IsRegistry (insert_or_ignore r t)
unfolding insert_or_ignore
ignore-IsRegistry r t i v = by (get t r.id)
  where
    by : (o : Option Row) → IsRegistry (insert_absent r t o)
    by none = unfold insert_absent in put-IsRegistry r t i v
    by (some old) = unfold insert_absent in v

insert_valid-IsRegistry :
    (now : String) (r : Result String) (m : Meta) (t : Table)
    → ((k : String) → r ≡ ok k → IsTenantId k)
    → IsRegistry t
    → IsRegistry (insert_valid now r m t)
unfolding insert_valid
insert_valid-IsRegistry now (err e) m t i v = v
insert_valid-IsRegistry now (ok k) m t i v =
    ignore-IsRegistry (legacy_row now k m) t (legacy_row-IsSound now k m (i k refl)) v

pub import-IsRegistry :
    (now : String) (entries : List (String × Meta)) (t : Table)
    → IsRegistry t
    → IsRegistry (import_entries now entries t)
unfolding import_entries
import-IsRegistry now [] t v = v
import-IsRegistry now ((tid, m) ∷ entries) t v = import-IsRegistry now entries _ (
    insert_valid-IsRegistry now (validate_tenant_id (some tid)) m t
      (λ k h. ((validate_tenant_id-IsTenantId (some tid) k).0 h).1) v)

-- The row of an id in a table, or else of the first entry for it
abbrev pub row_or_entry : String → String → Option Row → Option Meta → Option Row
row_or_entry now k (some r) m = some r
row_or_entry now k none none = none
row_or_entry now k none (some m) = some (legacy_row now k m)

get-insert_absent :
    (now k : String) (r : Row) (m : Meta) (rest : Option Meta) (t : Table) (o : Option Row)
    → r ≡ legacy_row now r.id m
    → get t r.id ≡ o
    → row_or_entry now k (get (insert_absent r t o) k) rest
      ≡ row_or_entry now k (get t k) (if r.id == k then some m else rest)
unfolding insert_absent
get-insert_absent now k r m rest t none q p = ground (arith, get-put r t k, eq_iff r.id k)
get-insert_absent now k r m rest t (some old) q p = ground (arith, eq_iff r.id k)

get-insert_valid :
    (now k tid : String) (m : Meta) (rest : Option Meta) (t : Table) (r : Result String)
    → r ≡ validate_tenant_id (some tid)
    → IsTenantId k
    → row_or_entry now k (get (insert_valid now r m t) k) rest
      ≡ row_or_entry now k (get t k) (if tid == k then some m else rest)
unfolding insert_valid insert_or_ignore
get-insert_valid now k tid m rest t (ok j) q v =
    let same : tid ≡ j =
      some_injective tid j ((validate_tenant_id-IsTenantId (some tid) j).0 (sym q)).0 in
    rw same (
      unfold legacy_row in
      get-insert_absent now k (legacy_row now j m) m rest t (get t j) refl refl)
get-insert_valid now k tid m rest t (err e) q v =
    let other : tid == k ≡ false = ground (arith, eq_iff tid k, validate_of_IsTenantId k v) in
    rw other refl

-- Reading a valid tenant id after the import.
pub get-import :
    (now k : String) (entries : List (String × Meta)) (t : Table)
    → IsTenantId k
    → get (import_entries now entries t) k ≡ row_or_entry now k (get t k) (lookup k entries)
unfolding import_entries lookup
get-import now k [] t v = by (get t k)
  where
    by : (o : Option Row) → o ≡ row_or_entry now k o none
    by none = refl
    by (some r) = refl
get-import now k ((tid, m) ∷ entries) t v =
    get-import now k entries (insert_valid now (validate_tenant_id (some tid)) m t) v
    ∙ get-insert_valid now k tid m (lookup k entries) t (validate_tenant_id (some tid)) refl v

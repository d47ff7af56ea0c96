-- ===== src/Store/Refinement.antt =====
-- The registry of control-plane/store.py as a map from tenant ids to rows: what its clients may rely on,
-- without the order of the table's rows.
use saas_ntier_lab.Prelude.{
  ℕ, String, ◌≡◌, refl, ◌∙◌, Bool, true, false, Option, none, some, List, [], ◌∷◌, arith, ◌==◌,
  if◌then◌else◌, Option-cases, Bool-cases, eq_iff, sym, inl, inr,
}
use saas_ntier_lab.Errors.{Result, ok, err, Error}
use saas_ntier_lab.Ids.{validate_tenant_id}
use saas_ntier_lab.Ids.Grammar.{validate_tenant_id-IsTenantId}
use saas_ntier_lab.Store.Rows.{Row, Fields, is_desired}
use saas_ntier_lab.Store.{
  Table, get, upsert_valid, upsert, delete, upsert_found, insert_row, update_row, delete_found,
  is_stale, conflict_error, desired_error, version_of,
}
use saas_ntier_lab.Store.Laws.{get-upsert, upsert-err, get-remove}
use saas_ntier_lab.Store.Versions.{stored}

-- The abstract state
abbrev pub Registry : Type 0
Registry = String → Option Row

-- A request to the registry, at a time: `get`, `upsert` or `delete`.
pub data Request : Type 0 where
  read : String → Request
  write : String → String → Option ℕ → Fields → Request
  erase : String → Request

pub data Reply : Type 0 where
  shown : Option Row → Reply
  written : Result Row → Reply
  erased : Bool → Reply

abbrev pub is_there : Option Row → Bool
is_there none = false
is_there (some r) = true

-- Whether the row that is there has another version than the expected one
abbrev pub conflicts : Option ℕ → Option Row → Option Error
conflicts expected none = none
conflicts expected (some row) =
    if is_stale expected row.version
    then some (conflict_error row.id row.version (version_of expected))
    else none

abbrev checked : Option Error → Row → Result Row
checked (some e) r = err e
checked none r = if is_desired r.desired_status then ok r else err (desired_error r.desired_status)

-- What a write answers, of the row that is there
abbrev pub answer : Result String → String → Option ℕ → Fields → Option Row → Result Row
answer (err e) now expected f o = err e
answer (ok k) now expected f o = checked (conflicts expected o) (stored now k f o)

abbrev assign : Result Row → String → Registry → Registry
assign (ok r) k m j = if k == j then some r else m j
assign (err e) k m j = m j

-- The abstract registry's step
abbrev pub specified : Request → Registry → Reply × Registry
specified (read k) m = (shown (m k), m)
specified (write now k expected f) m =
    let r = answer (validate_tenant_id (some k)) now expected f (m k) in (written r, assign r k m)
specified (erase k) m = (erased (is_there (m k)), λ j. if k == j then none else m j)

abbrev shown_by : Result Row × Table → Reply × Table
shown_by (r, t) = (written r, t)

abbrev erased_by : Bool × Table → Reply × Table
erased_by (b, t) = (erased b, t)

-- The step of the table
abbrev pub served : Request → Table → Reply × Table
served (read k) t = (shown (get t k), t)
served (write now k expected f) t = shown_by (upsert now k expected f t)
served (erase k) t = erased_by (delete k t)

-- A sequence of requests, with the replies
pub serve_all : List Request → Table → List Reply × Table
serve_all [] t = ([], t)
serve_all (q ∷ qs) t =
    let (a, t') = served q t in let (rest, last) = serve_all qs t' in (a ∷ rest, last)

pub specify_all : List Request → Registry → List Reply × Registry
specify_all [] m = ([], m)
specify_all (q ∷ qs) m =
    let (a, m') = specified q m in let (rest, last) = specify_all qs m' in (a ∷ rest, last)

-- The table shows the map.
pub record Shows (t : Table) (m : Registry) : Type 0 where
  pub at : (j : String) → get t j ≡ m j

found-answer :
    (now k : String) (expected : Option ℕ) (f : Fields) (t : Table) (o : Option Row)
    → (upsert_found now k expected f t o).0 ≡ answer (ok k) now expected f o
unfolding upsert_found insert_row update_row
found-answer now k expected f t none = ground arith
found-answer now k expected f t (some row) = ground arith

pub some_injective : (k s : String) → some k ≡ some s → k ≡ s
some_injective k s h = cc

upsert-answer :
    (now k : String) (expected : Option ℕ) (f : Fields) (t : Table)
    → (upsert now k expected f t).0 ≡ answer (validate_tenant_id (some k)) now expected f (get t k)
unfolding upsert
upsert-answer now k expected f t =
    valid (validate_tenant_id (some k))
      (λ s h. some_injective k s ((validate_tenant_id-IsTenantId (some k) s).0 h).0)
  where
    valid :
        (v : Result String)
        → ((s : String) → v ≡ ok s → k ≡ s)
        → (upsert_valid now expected f t v).0 ≡ answer v now expected f (get t k)
    valid (err e) h = unfold upsert_valid in refl
    valid (ok s) h =
        unfold upsert_valid in rw (h s refl) (found-answer now s expected f t (get t s))

assigned :
    (r : Result Row) (now k : String) (expected : Option ℕ) (f : Fields) (t : Table) (j : String)
    → (upsert now k expected f t).0 ≡ r
    → get (upsert now k expected f t).1 j ≡ assign r k (get t) j
assigned (ok r) now k expected f t j h = get-upsert now k expected f t r j h
assigned (err e) now k expected f t j h = rw (upsert-err now k expected f t e h) refl

erase-served :
    (k : String) (t : Table)
    → ((delete k t).0 ≡ is_there (get t k))
      × ((j : String) → get (delete k t).1 j ≡ (if k == j then none else get t j))
unfolding delete delete_found
erase-served k t = elim (Option-cases (get t k)) [
  | inl p ↦ rw p (
    refl,
    λ j. elim (Bool-cases (k == j)) [
      | inl t' ↦ rw t' (rw (sym ((eq_iff k j).0 t')) p)
      | inr f ↦ rw f refl
    ],
  )
  | inr (r, p) ↦ rw p (refl, λ j. get-remove k t j)
]

served-Shows :
    (q : Request) (t : Table) (m : Registry)
    → Shows t m
    → ((served q t).0 ≡ (specified q m).0) × Shows (served q t).1 (specified q m).1
served-Shows (read k) t m h = (rw (h.at k) refl, h)
served-Shows (write now k expected f) t m h =
    let is = upsert-answer now k expected f t in
    (
      rw is (rw (h.at k) refl),
      record { at = λ j. assigned _ now k expected f t j is ∙ rw (h.at k) (assign_same _ k j) },
    )
  where
    assign_same : (r : Result Row) (k j : String) → assign r k (get t) j ≡ assign r k m j
    assign_same (ok r) k j = rw (h.at j) refl
    assign_same (err e) k j = h.at j
served-Shows (erase k) t m h =
    let (found, gone) = erase-served k t in
    (rw found (rw (h.at k) refl), record { at = λ j. gone j ∙ rw (h.at j) refl })

-- The registry implements the map. Over any sequence of reads, writes and deletions, from a table that
-- shows a map, every reply is the one that the map gives, and the table shows the map at the end. The map
-- knows no order of rows: a write of a valid id with the expected version and a valid desired status
-- replaces the tenant's row by the one described by `stored`, any other write is refused and changes
-- nothing, and a deletion says whether there was a row.
pub serve_all-Shows :
    (qs : List Request) (t : Table) (m : Registry)
    → Shows t m
    → ((serve_all qs t).0 ≡ (specify_all qs m).0) × Shows (serve_all qs t).1 (specify_all qs m).1
unfolding serve_all specify_all
serve_all-Shows [] t m h = (refl, h)
serve_all-Shows (q ∷ qs) t m h =
    let (same, kept) = served-Shows q t m h in
    let (rest, last) = serve_all-Shows qs (served q t).1 (specified q m).1 kept in
    (rw same (rw rest refl), last)

-- ===== src/Store/Legacy/Columns.antt =====
-- The row that `_import_legacy_json` of control-plane/store.py writes for an entry, column by column.
use saas_ntier_lab.Prelude.{
  String, ◌≡◌, refl, ◌||◌, Option, none, some, List, [], lookup, Bool-cases, inl, inr, or_else,
  arith, eq_iff, ◌==◌, if◌then◌else◌,
}
use saas_ntier_lab.Ids.Grammar.{IsTenantId}
use saas_ntier_lab.Store.Rows.{Row, Owner, infer_desired, status_text, desired_text}
use saas_ntier_lab.Store.{get}
use saas_ntier_lab.Store.Legacy.{
  Meta, status_of_text, owner_of_text, owner_or_null, legacy_row, import_entries,
}
use saas_ntier_lab.Store.Legacy.Laws.{get-import, row_or_entry}

-- The text of `owned_by`.
abbrev pub owner_text : Option Owner → Option String
owner_text none = none
owner_text (some Owner.control_plane) = some "control_plane"
owner_text (some Owner.opentofu) = some "opentofu"
owner_text (some (Owner.other s)) = some s

-- The desired status that goes with a status, as texts.
abbrev pub desired_for : String → String
desired_for s =
    if s == "DELETING" || s == "DELETE_FAILED"
    then "GONE"
    else if s == "SUSPENDED"
    then "SUSPENDED"
    else "ACTIVE"

-- The texts of the row are the entry's, or the default where the entry has none; the version is 1.
pub record IsLegacyRow (now k : String) (m : Meta) (r : Row) : Type 0 where
  pub id : r.id ≡ k
  pub status : status_text r.status ≡ or_else m.status "ACTIVE"
  pub desired_status : desired_text r.desired_status ≡ desired_for (or_else m.status "ACTIVE")
  pub tier : r.tier ≡ some (or_else m.tier "standard")
  pub endpoint : r.endpoint ≡ m.endpoint
  pub path_prefix : r.path_prefix ≡ m.path_prefix
  pub owned_by : owner_text r.owned_by ≡ m.owned_by
  pub secret_name : r.secret_name ≡ m.secret_name
  pub irsa_role_arn : r.irsa_role_arn ≡ m.irsa_role_arn
  pub error : r.error ≡ m.error
  pub delete_step : r.delete_step ≡ m.delete_step
  pub observed_json : r.observed_json ≡ none
  pub version : r.version ≡ 1
  pub created_at : r.created_at ≡ or_else m.created_at now
  pub updated_at : r.updated_at ≡ or_else m.updated_at now

status_text-status_of_text : (s : String) → status_text (status_of_text s) ≡ s
unfolding status_of_text
status_text-status_of_text s = ground (
  arith,
  eq_iff s "PROVISIONING",
  eq_iff s "ACTIVE",
  eq_iff s "SUSPENDED",
  eq_iff s "DELETING",
  eq_iff s "DELETE_FAILED",
  eq_iff s "FAILED",
  eq_iff s "DRIFT",
)

desired_text-inferred :
    (s : String) → desired_text (infer_desired (status_of_text s)) ≡ desired_for s
unfolding status_of_text
desired_text-inferred s = elim (Bool-cases (s == "PROVISIONING")) [
  | inl y ↦ rw ((eq_iff s "PROVISIONING").0 y) refl
  | inr n0 ↦ elim (Bool-cases (s == "ACTIVE")) [
    | inl y ↦ rw ((eq_iff s "ACTIVE").0 y) refl
    | inr n1 ↦ elim (Bool-cases (s == "SUSPENDED")) [
      | inl y ↦ rw ((eq_iff s "SUSPENDED").0 y) refl
      | inr n2 ↦ elim (Bool-cases (s == "DELETING")) [
        | inl y ↦ rw ((eq_iff s "DELETING").0 y) refl
        | inr n3 ↦ elim (Bool-cases (s == "DELETE_FAILED")) [
          | inl y ↦ rw ((eq_iff s "DELETE_FAILED").0 y) refl
          | inr n4 ↦ elim (Bool-cases (s == "FAILED")) [
            | inl y ↦ rw ((eq_iff s "FAILED").0 y) refl
            | inr n5 ↦ elim (Bool-cases (s == "DRIFT")) [
              | inl y ↦ rw ((eq_iff s "DRIFT").0 y) refl
              | inr n6 ↦ rw (n0, n1, n2, n3, n4, n5, n6) refl
            ]
          ]
        ]
      ]
    ]
  ]
]

owner_text-owner_of_text : (s : String) → owner_text (some (owner_of_text s)) ≡ some s
unfolding owner_of_text
owner_text-owner_of_text s = ground (arith, eq_iff s "control_plane", eq_iff s "opentofu")

owner_text-owner_or_null : (o : Option String) → owner_text (owner_or_null o) ≡ o
owner_text-owner_or_null none = refl
owner_text-owner_or_null (some s) = owner_text-owner_of_text s

legacy_row-IsLegacyRow : (now k : String) (m : Meta) → IsLegacyRow now k m (legacy_row now k m)
unfolding legacy_row
legacy_row-IsLegacyRow now k m = record {
  id = refl;
  status = status_text-status_of_text (or_else m.status "ACTIVE");
  desired_status = desired_text-inferred (or_else m.status "ACTIVE");
  tier = refl;
  endpoint = refl;
  path_prefix = refl;
  owned_by = owner_text-owner_or_null m.owned_by;
  secret_name = refl;
  irsa_role_arn = refl;
  error = refl;
  delete_step = refl;
  observed_json = refl;
  version = refl;
  created_at = refl;
  updated_at = refl;
}

-- A read gives the row of the entry, and nothing where there is no entry.
abbrev pub ReadsAs : String → String → Option Meta → Option Row → Type 0
ReadsAs now k none o = o ≡ none
ReadsAs now k (some m) o = (r : Row) × (o ≡ some r) × IsLegacyRow now k m r

read_entry :
    (now k : String) (e : Option Meta) (o : Option Row)
    → o ≡ row_or_entry now k none e
    → ReadsAs now k e o
read_entry now k none o h = h
read_entry now k (some m) o h = (legacy_row now k m, h, legacy_row-IsLegacyRow now k m)

-- After the import into an empty table, a valid id reads as the first entry for it.
pub import-ReadsAs :
    (now k : String) (entries : List (String × Meta))
    → IsTenantId k
    → ReadsAs now k (lookup k entries) (get (import_entries now entries []) k)
unfolding get
import-ReadsAs now k entries v =
    read_entry now k (lookup k entries) _ (get-import now k entries [] v)

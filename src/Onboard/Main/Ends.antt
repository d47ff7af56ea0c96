-- ===== src/Onboard/Main/Ends.antt =====
-- How `main` of helm/test-app/onboard_tenant.py ends, and what it takes from the registry.
use saas_ntier_lab.Prelude.{
  ℕ, String, ◌≡◌, refl, Bool, true, false, not, ◌&&◌, Option, none, some, List, [], ◌∷◌, lookup,
  lookup-insert, ◌==◌, inl, inr, Bool-cases, truthy, if◌then◌else◌, arith, eq_iff,
}
use mathlib.Core.Path.{subst}
use saas_ntier_lab.Errors.{Result, ok, err, Error}
use saas_ntier_lab.Ids.Grammar.{IsTenantId}
use saas_ntier_lab.Store
use saas_ntier_lab.Store.{Row}
use saas_ntier_lab.Store.Invariant.{IsSound, IsRegistry}
use saas_ntier_lab.Store.Legacy.{Meta}
use saas_ntier_lab.Exec.{Platform, World, pure, handle, continue}
use saas_ntier_lab.Onboard.Main.{
  Known, set_if, merge_row, merge_rows, is_reported, main_body, report_error, onboarded, main,
}

-- The role of a tenant: its row's, if it has a row with one, and else the one that is known already.
abbrev pub row_role : Option Row → Option String → Option String
row_role none old = old
row_role (some r) old = if truthy r.irsa_role_arn then r.irsa_role_arn else old

set_if-lookup :
    (k j : String) (v : Option String) (d : List (String × String))
    → lookup j (set_if k v d) ≡ (if k == j && truthy v then v else lookup j d)
set_if-lookup k j none d = ground arith
set_if-lookup k j (some v) d = ground (arith, lookup-insert k j v d)

not_empty : (s : String) → IsTenantId s → s == "" ≡ false
not_empty s v = elim (Bool-cases (s == "")) [
  | inl e ↦ let same : s ≡ "" = (eq_iff s "").0 e in absurd (subst IsTenantId same v).first
  | inr n ↦ n
]

merge_row-irsa :
    (k : String) (m : Known) (r : Row)
    → IsSound r
    → lookup k (merge_row m r).irsa
      ≡ (if r.id == k then row_role (some r) (lookup k m.irsa) else lookup k m.irsa)
unfolding merge_row
merge_row-irsa k m r i =
    rw (not_empty r.id i.id) (ground (arith, set_if-lookup r.id k r.irsa_role_arn m.irsa))

-- What the registry adds to the roles of the stack: for rows with valid and distinct tenant ids, the
-- role of every tenant is that of its row if it has one, whoever owns the tenant and whatever its
-- status, and the stack's otherwise.
pub merge_rows-irsa :
    (rows : List Row) (m : Known) (k : String)
    → IsRegistry rows
    → lookup k (merge_rows rows m).irsa ≡ row_role (Store.get rows k) (lookup k m.irsa)
unfolding merge_rows Store.get
merge_rows-irsa [] m k v = refl
merge_rows-irsa (r ∷ rows) m k v = ground (
  arith,
  merge_rows-irsa rows (merge_row m r) k v.2,
  merge_row-irsa k m r v.0,
  eq_iff r.id k,
  v.1,
)

-- The tenant and `--all` are both given, or neither is.
abbrev pub ill_given : Option String → Bool → Bool
ill_given tenant all = if truthy tenant then all else not all

-- The command ends with 0 or with 1, or with 2 before it has done anything, or with an exception that
-- it does not report.
pub data MainEnds {p : Platform} (ill : Bool) (before : World p) : Result ℕ × World p → Type 0 where
  done : (w : World p) → ill ≡ false → MainEnds ill before (ok 0, w)
  reported : (w : World p) → ill ≡ false → MainEnds ill before (ok 1, w)
  usage : ill ≡ true → MainEnds ill before (ok 2, before)
  escaped :
      (w : World p) (e : Error)
      → ill ≡ false
      → is_reported e.kind ≡ false
      → MainEnds ill before (err e, w)

module _ (p : Platform) (chart_dir guardrails_dir data_dir : String)
    (entries : String → Option (List (String × Meta))) where
  report_lem :
      (before w : World p) (e : Error)
      → MainEnds false before (report_error p chart_dir guardrails_dir data_dir entries e w)
  unfolding report_error
  report_lem before w e = elim (Bool-cases (is_reported e.kind)) [
    | inl t ↦ rw t (reported w refl)
    | inr f ↦ rw f (escaped w e refl f)
  ]

  ended :
      (before w : World p) (r : Result (Unit {0}))
      → MainEnds false before (
          handle
            (continue {B = ℕ} r (λ _. pure 0) w).0
            (report_error p chart_dir guardrails_dir data_dir entries)
            (continue {B = ℕ} r (λ _. pure 0) w).1)
  ended before w (ok a) = done w refl
  ended before w (err e) = report_lem before w e

  -- `main` exits with 2, and has done nothing, exactly when the tenant and `--all` are both given or
  -- neither is. Otherwise it exits with 0, or with 1 for an OnboardError or a CalledProcessError, and
  -- every other exception leaves it.
  pub main_ends :
      (tenant : Option String) (all : Bool) (dir : String) (w : World p)
      → MainEnds
          (ill_given tenant all)
          w
          (main p chart_dir guardrails_dir data_dir entries tenant all dir w)
  unfolding main onboarded
  main_ends tenant true dir w = elim (Bool-cases (truthy tenant)) [
    | inl t ↦ rw t (usage refl)
    | inr f ↦ rw f (ended w (main_body p chart_dir guardrails_dir data_dir entries none dir w).1 _)
  ]
  main_ends tenant false dir w = elim (Bool-cases (truthy tenant)) [
    | inl t ↦
        rw t (ended w (main_body p chart_dir guardrails_dir data_dir entries tenant dir w).1 _)
    | inr f ↦ rw f (usage refl)
  ]

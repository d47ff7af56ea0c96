-- ===== src/Reconcile/Sweep/Unmanaged.antt =====
-- `list_unmanaged_namespaces` of control-plane/reconcile.py.
use saas_ntier_lab.Prelude.{
  String, ◌≡◌, refl, Bool, false, not, ◌&&◌, ◌||◌, List, [], ◌∷◌, elem, starts_with, ◌==◌, ◌<>◌,
  arith, eq_iff,
}
use saas_ntier_lab.Store.{Row}
use saas_ntier_lab.Reconcile.Sweep.{known_ns, unmanaged, list_unmanaged_namespaces}

-- The namespace is that of a tenant in the rows.
abbrev pub belongs : String → List Row → Bool
belongs n [] = false
belongs n (r ∷ rows) = n == ("tenant-" <> r.id) || belongs n rows

known_ns-belongs : (n : String) (rows : List Row) → elem n (known_ns rows) ≡ belongs n rows
unfolding known_ns
known_ns-belongs n [] = refl
known_ns-belongs n (r ∷ rows) = rw (known_ns-belongs n rows) refl

unmanaged-elem :
    (n : String) (ns known : List String)
    → elem n (unmanaged ns known) ≡ (elem n ns && (starts_with n "tenant-" && not (elem n known)))
unfolding unmanaged
unmanaged-elem n [] known = refl
unmanaged-elem n (m ∷ ns) known = ground (arith, unmanaged-elem n ns known, eq_iff n m)

-- A namespace is listed as unmanaged exactly when the cluster has it, its name begins with "tenant-",
-- and it is not that of a row.
pub unmanaged_iff :
    (n : String) (ns : List String) (rows : List Row)
    → elem n (list_unmanaged_namespaces ns rows)
      ≡ (elem n ns && (starts_with n "tenant-" && not (belongs n rows)))
unfolding list_unmanaged_namespaces
unmanaged_iff n ns rows =
    rw (unmanaged-elem n ns (known_ns rows)) (rw (known_ns-belongs n rows) refl)

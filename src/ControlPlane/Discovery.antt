-- ===== src/ControlPlane/Discovery.antt =====
-- `discover_active` of control-plane/provisioner.py.
use saas_ntier_lab.Prelude.{String, ◌≡◌, refl, ap, not, ◌&&◌, List, elem, starts_with}
use mathlib.Core.Path.{subst}
use saas_ntier_lab.Errors.{Result, ok, err}
use saas_ntier_lab.Store
use saas_ntier_lab.Store.{Row}
use saas_ntier_lab.Exec.{Platform, World, continue, ◌>>=◌, pure, store_list}
use saas_ntier_lab.Reconcile.Sweep.{list_unmanaged_namespaces}
use saas_ntier_lab.Reconcile.Sweep.Unmanaged.{belongs, unmanaged_iff}
use saas_ntier_lab.ControlPlane.{Setup, Listing, subprocess_ns, discover_active}
use saas_ntier_lab.ControlPlane.Keeps.{subprocess_ns-Keeps, discover_active-Keeps}

module _ (p : Platform) (s : Setup) where
  -- The rows of the registry, and the tenant namespaces of the cluster that none of them is for.
  pub record IsListing (w : World p) (o : Listing) : Type 0 where
    pub names : List String
    pub asked : (subprocess_ns p s w).0 ≡ ok names
    pub tenants : o.tenants ≡ Store.list w.table
    pub others :
        (n : String)
        → elem n o.unmanaged_namespaces
          ≡ (elem n names && (starts_with n "tenant-" && not (belongs n (Store.list w.table))))

  abbrev listing_of : List String → List Row → List Row → Listing
  listing_of ns known rows = record {
    tenants = rows;
    unmanaged_namespaces = list_unmanaged_namespaces ns known;
  }

  listed :
      (w w1 : World p) (r : Result (List String)) (o : Listing)
      → (subprocess_ns p s w).0 ≡ r
      → w1.table ≡ w.table
      → (continue r
          (λ ns. store_list >>= λ rows. pure (listing_of ns (Store.list w.table) rows))
          w1).0
        ≡ ok o
      → IsListing w o
  unfolding store_list
  listed w w1 (err e) o asked same h = cc
  listed w w1 (ok ns) o asked same h =
      let made : listing_of ns (Store.list w.table) (Store.list w1.table) ≡ o = cc in
      subst (IsListing w) made (record {
        names = ns;
        asked = asked;
        tenants = ap Store.list same;
        others = λ n. unmanaged_iff n ns (Store.list w.table);
      })

  -- Discovering changes no row: no namespace becomes ACTIVE by it. What it returns is the registry's
  -- rows, and exactly those namespaces that `kubectl` names, that begin with "tenant-" and that are not
  -- the namespace of a row.
  pub discover_active_lists :
      (w : World p)
      → ((discover_active p s w).1.table ≡ w.table)
        × ((o : Listing) → (discover_active p s w).0 ≡ ok o → IsListing w o)
  unfolding discover_active store_list
  discover_active_lists w =
      let unchanged : (subprocess_ns p s w).1.table ≡ w.table =
        ((subprocess_ns-Keeps p s {Q = λ t. t ≡ w.table}).at w (record { holds = refl })).holds in
      (
        ((discover_active-Keeps p s {Q = λ t. t ≡ w.table}).at w (record { holds = refl })).holds,
        λ o h. listed w (subprocess_ns p s w).1 (subprocess_ns p s w).0 o refl unchanged h,
      )

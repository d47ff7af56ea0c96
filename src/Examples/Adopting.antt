-- ===== src/Examples/Adopting.antt =====
-- An adoption, on a platform where every call succeeds.
use saas_ntier_lab.Prelude.{◌≡◌, refl, some, List, [], ◌∷◌}
use saas_ntier_lab.Errors.{ok}
use saas_ntier_lab.Store
use saas_ntier_lab.Store.{Row}
use saas_ntier_lab.Exec.{Outputs}
use saas_ntier_lab.Adopt.{adopt_tenants}
use saas_ntier_lab.Adopt.Owned.{AllOwned, adopt_tenants_owns}
use saas_ntier_lab.Examples.{calm, world, acme}

abbrev adopted : List Row
adopted =
    record acme {
      irsa_role_arn = some "arn:aws:iam::1:role/new";
      path_prefix = some "/tenant-acme";
      version = 4;
      updated_at = "now";
    }
    ∷ []

adopts : (adopt_tenants calm "workload" 1 ("acme" ∷ "No-id" ∷ []) world).0 ≡ ok adopted
unfolding adopt_tenants Store.upsert
adopts = refl

adopt_tenants_owns_example :
    (o : Outputs) × ((calm.tofu_output world.ext).0 ≡ ok o)
    × AllOwned o adopted (adopt_tenants calm "workload" 1 ("acme" ∷ "No-id" ∷ []) world).1.table
adopt_tenants_owns_example =
    adopt_tenants_owns calm "workload" 1 ("acme" ∷ "No-id" ∷ []) world adopted adopts

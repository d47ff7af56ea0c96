-- ===== src/Lifecycle/Registry.antt =====
-- A deletion and the registry's invariant.
use saas_ntier_lab.Prelude.{String}
use saas_ntier_lab.Store.Invariant.{IsRegistry}
use saas_ntier_lab.Exec.{Platform, World, Exec, Outputs}
use saas_ntier_lab.Exec.Keeps.{
  Keeps, Registered, upsert-Registered, delete-Registered, spawn-Registered, aws_call-Registered,
  sleep_for-Registered, tofu_outputs-Registered,
}
use saas_ntier_lab.Lifecycle.{delete_tenant}
use saas_ntier_lab.Lifecycle.Keeps.{delete_tenant-Keeps}

-- If dropping the database role keeps the registry's invariant, so does a deletion, whether it
-- returns or raises.
pub delete_tenant-IsRegistry :
    {p : Platform} (drop_role : Outputs → String → Exec p (Unit {0}))
    → ((o : Outputs) (k : String) → Keeps (Registered p) (drop_role o k))
    → (k : String) (w : World p) → IsRegistry w.table
    → IsRegistry (delete_tenant p drop_role k w).1.table
delete_tenant-IsRegistry drop_role drops k w v =
    (delete_tenant-Keeps drop_role sleep_for-Registered drops upsert-Registered
        tofu_outputs-Registered delete-Registered spawn-Registered aws_call-Registered k).at
      w v

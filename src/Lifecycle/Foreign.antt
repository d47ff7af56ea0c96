-- ===== src/Lifecycle/Foreign.antt =====
-- Deletions of tenants whose identity the control plane does not own.
use saas_ntier_lab.Prelude.{String, ◌≡◌, refl, false, true, Bool, Option, none, some, List}
use saas_ntier_lab.Errors.{Result}
use saas_ntier_lab.Ids.Grammar.{IsTenantId}
use saas_ntier_lab.Store
use saas_ntier_lab.Store.{Owner}
use saas_ntier_lab.Exec.{Platform, World, Outputs, Call, aws, catch, store_upsert}
use saas_ntier_lab.Exec.Keeps.{
  Keeps, Keeps-bind, Keeps-catch, Keeps-pure, Logged, logged_rules, only, upsert-Logged,
  spawn-Logged, sleep_for-Logged, tofu_outputs-Logged, capture-Logged, feed-Logged, write-Logged,
  time-Logged,
}
use saas_ntier_lab.PgAdmin.{Conditions, apply_json}
use saas_ntier_lab.PgAdmin.Keeps.{drop_role-Keeps}
use saas_ntier_lab.Lifecycle.{
  delete_tenant, teardown, remove_rest, remove_identity, delete_kubernetes, delete_if_live,
  delete_ns, Owned, owned_of, fail_delete, delete_started,
}
use saas_ntier_lab.Lifecycle.Outcome.{delete_tenant_try}
use saas_ntier_lab.Lifecycle.Keeps.{disable-Keeps, revoke-Keeps, run_ok-Keeps, run-Keeps}
use saas_ntier_lab.Lifecycle.Removals.{removes_identity}
use saas_ntier_lab.Lifecycle.Dropping.{dropping}

-- The calls that remove an IAM role or a secret
abbrev pub is_identity_removal : Call → Bool
is_identity_removal (aws c) = removes_identity c
is_identity_removal _ = false

abbrev pub is_owner : Option Owner → Bool
is_owner (some Owner.control_plane) = true
is_owner _ = false

module _ (p : Platform) (decode : String → Result Conditions) (tmp_dir : String)
    {l : List Call} where
  drop_role-Logged :
      (o : Outputs) (k : String)
      → Keeps (Logged p is_identity_removal l) (dropping p decode tmp_dir o k)
  drop_role-Logged o k =
      drop_role-Keeps decode tmp_dir time-Logged sleep_for-Logged (λ f s. write-Logged f s refl)
        (λ rest. capture-Logged _ refl) (λ rest. spawn-Logged _ refl)
        (λ text. feed-Logged apply_json text refl) o k 300

  live-Logged :
      (ns : String) (b : Bool) → Keeps (Logged p is_identity_removal l) (delete_if_live p ns b)
  unfolding delete_if_live
  live-Logged ns true = run-Keeps (delete_ns ns) (spawn-Logged _ refl)
  live-Logged ns false = Keeps-pure tt

  kubernetes-Logged :
      (ns : String) → Keeps (Logged p is_identity_removal l) (delete_kubernetes p ns)
  unfolding delete_kubernetes
  kubernetes-Logged ns =
      Keeps-bind _ _ (run_ok-Keeps _ (spawn-Logged _ refl))
        (λ _. Keeps-bind _ _ (run_ok-Keeps _ (spawn-Logged _ refl)) (live-Logged ns))

  identity-Logged :
      (owner : Option Owner) (owned : Owned) (o : Outputs) (k : String)
      → is_owner owner ≡ false
      → Keeps
          (Logged p is_identity_removal l)
          (remove_identity p (dropping p decode tmp_dir) owner owned o k)
  unfolding remove_identity
  identity-Logged none owned o k h = Keeps-pure tt
  identity-Logged (some Owner.control_plane) owned o k h = cc
  identity-Logged (some Owner.opentofu) owned o k h = Keeps-pure tt
  identity-Logged (some (Owner.other s)) owned o k h = Keeps-pure tt

  rest-Logged :
      (owned : Owned) (o : Outputs) (k : String)
      → is_owner owned.owned_by ≡ false
      → Keeps (Logged p is_identity_removal l) (remove_rest p (dropping p decode tmp_dir) owned o k)
  unfolding remove_rest
  rest-Logged owned o k h =
      let ids = identity-Logged owned.owned_by owned o k h in
      search (logged_rules, kubernetes-Logged) depth 9

  teardown-Logged :
      (owned : Owned) (k : String)
      → is_owner owned.owned_by ≡ false
      → Keeps (Logged p is_identity_removal l) (teardown p (dropping p decode tmp_dir) owned k)
  unfolding teardown
  teardown-Logged owned k h =
      Keeps-bind _ _ (disable-Keeps k (spawn-Logged _ refl) (spawn-Logged _ refl)) (λ _.
        Keeps-bind _ _ (upsert-Logged k _) (λ _. Keeps-bind _ _ tofu_outputs-Logged (λ o.
          Keeps-bind _ _
            (revoke-Keeps (dropping p decode tmp_dir) sleep_for-Logged drop_role-Logged o k)
            (λ _. rest-Logged owned o k h))))

  try-Logged :
      (owned : Owned) (k : String)
      → is_owner owned.owned_by ≡ false
      → Keeps (Logged p is_identity_removal l) (
          catch
            (teardown p (dropping p decode tmp_dir) owned k)
            (fail_delete p (dropping p decode tmp_dir) k))
  unfolding fail_delete
  try-Logged owned k h = Keeps-catch _ _ (teardown-Logged owned k h) (λ e. search logged_rules)

module _ (p : Platform) (decode : String → Result Conditions) (tmp_dir : String) where
  -- Deleting a valid tenant id that has no row, or whose row does not say that the control plane owns
  -- it, makes no call that removes an IAM role or a secret, however the deletion ends.
  pub delete_spares_identity :
      (k : String) (w : World p)
      → IsTenantId k
      → is_owner (owned_of (Store.get w.table k)).owned_by ≡ false
      → only is_identity_removal (delete_tenant p (dropping p decode tmp_dir) k w).1.log
        ≡ only is_identity_removal w.log
  delete_spares_identity k w v h =
      let t = delete_tenant_try (dropping p decode tmp_dir) k w v in
      rw t
        ((try-Logged p decode tmp_dir (owned_of (Store.get w.table k)) k h).at
          (store_upsert k delete_started w).1
          ((upsert-Logged k delete_started).at w (record { same = refl }))).same

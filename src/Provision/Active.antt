-- ===== src/Provision/Active.antt =====
-- How a provisioning of control-plane/provisioner.py succeeds.
use saas_ntier_lab.Prelude.{
  String, ◌≡◌, refl, Bool, true, false, Option, none, some, List, arith, lookup, Bool-cases, inl,
  inr, if◌then◌else◌,
}
use saas_ntier_lab.Errors.{Result, ok, err}
use saas_ntier_lab.Ids.Grammar.{IsTenantId}
use saas_ntier_lab.Store
use saas_ntier_lab.Store.{Row, Fields, Status, Desired, Owner, Table, merge, fresh}
use saas_ntier_lab.Store.Versions.{stored}
use saas_ntier_lab.Exec.{
  Platform, World, Outputs, catch, continue, pure, lift, store_upsert, store_list, tofu_outputs,
}
use saas_ntier_lab.Exec.Returns.{
  Returns, Returns-bind, Returns-rest, Returns-catch, Returns-pure, Returns-lift, Returns-weaken,
  IsStored, upsert-Returns,
}
use saas_ntier_lab.Identity.{Made}
use saas_ntier_lab.Provision.{
  Order, provisioning_fields, identity_fields, active_fields, provision, provision_body,
  fail_provision, release, maps_of, identity_for, identity_by, identity_from_maps, made_of_maps,
  load_balancer, onboard_first, with_made,
}
use saas_ntier_lab.Identity.Names.{ensure_tenant_identity-Returns}
use saas_ntier_lab.Infra.{ensure_infra}
use saas_ntier_lab.AwsIdentity.{IdentityMaps, merge_identity_maps, cp_identities}
use saas_ntier_lab.Onboard.{node_ip, require_list, uses_controller}
use saas_ntier_lab.Onboard.Install.{onboard, platform_tenant}
use saas_ntier_lab.Provision.Outcome.{fail_provision-Fails, provision_try}

-- What an accepted write of `active_fields` has left.
active_row :
    (now k tier alb : String) (made : Made) (o : Option Row) (r : Row)
    → r ≡ stored now k (active_fields tier k alb made) o
    → (r.status ≡ Status.active)
      × (r.desired_status ≡ Desired.active)
      × (r.error ≡ none)
      × (r.owned_by ≡ some made.owned_by)
      × (r.secret_name ≡ made.secret_name)
      × (r.irsa_role_arn ≡ made.irsa_role_arn)
unfolding fresh merge
active_row now k tier alb made none r h = ground arith
active_row now k tier alb made (some old) r h = ground arith

-- Who owns the identity that is made for an order
abbrev pub owner_of : Order → Owner
owner_of order =
    if order.ensure_infra
    then Owner.opentofu
    else if order.ensure_identity
    then Owner.control_plane
    else Owner.opentofu

module _ (p : Platform) (chart_dir guardrails_dir tofu_dir : String) where
  -- The tenant's row says that it is ACTIVE, that this is desired, and who owns its identity.
  pub record IsProvisioned (order : Order) (k : String) (w : World p) : Type 0 where
    pub row : Row
    pub found : Store.get w.table k ≡ some row
    pub status : row.status ≡ Status.active
    pub desired : row.desired_status ≡ Desired.active
    pub error : row.error ≡ none
    pub owned_by : row.owned_by ≡ some (owner_of order)

  by_maps-Returns :
      (k : String) (secret role : Option String) (made : Made)
      → made_of_maps k secret role ≡ ok made
      → made.owned_by ≡ Owner.opentofu
  unfolding made_of_maps
  by_maps-Returns k none none made h = cc
  by_maps-Returns k none (some b) made h = cc
  by_maps-Returns k (some a) none made h = cc
  by_maps-Returns k (some a) (some b) made h = ground arith

  maps-Returns :
      (k : String) (o : Outputs)
      → Returns
          (λ made (w : World p). made.owned_by ≡ Owner.opentofu)
          (identity_from_maps p chart_dir guardrails_dir tofu_dir k o)
  unfolding identity_from_maps
  maps-Returns k o =
      Returns-rest (lift (require_list "tenant_secret_names" o.tenant_secret_names)) _ (λ secrets.
        Returns-rest (lift (require_list "tenant_irsa_role_arns" o.tenant_irsa_role_arns)) _
          (λ roles.
            Returns-lift _ (λ made w. by_maps-Returns k (lookup k secrets) (lookup k roles) made)))

  by-Returns :
      (b : Bool) (k : String) (o : Outputs)
      → Returns
          (λ made (w : World p).
            made.owned_by ≡ (if b then Owner.control_plane else Owner.opentofu))
          (identity_by p chart_dir guardrails_dir tofu_dir b k o)
  unfolding identity_by
  by-Returns true k o = ensure_tenant_identity-Returns p o k
  by-Returns false k o = maps-Returns k o

  identity_for-Returns :
      (order : Order) (k : String)
      → Returns
          (λ found (w : World p). found.1.owned_by ≡ owner_of order)
          (identity_for p chart_dir guardrails_dir tofu_dir order k)
  unfolding identity_for
  identity_for-Returns order k = elim (Bool-cases order.ensure_infra) [
    | inl t ↦
        rw t
          (Returns-rest (ensure_infra p tofu_dir k order.my_ip) _ (λ o. Returns-pure _ (λ w. refl)))
    | inr f ↦ rw f (
        Returns-rest tofu_outputs _ (λ o.
          Returns-bind (identity_by p chart_dir guardrails_dir tofu_dir order.ensure_identity k o) _
            (by-Returns order.ensure_identity k o)
            (λ made w own.
              (Returns-pure
                  {Q = λ found (w : World p).
                    found.1.owned_by
                    ≡ (if order.ensure_identity then Owner.control_plane else Owner.opentofu)}
                  (o, made) (λ w. own)).at
                w)))
  ]

  provisioned :
      (order : Order) (k alb : String) (made : Made) (r : Row) (w : World p)
      → made.owned_by ≡ owner_of order
      → IsStored k (active_fields order.tier k alb made) r w
      → IsProvisioned order k w
  provisioned order k alb made r w own s =
      let (st, de, er, ow, _, _) = active_row s.now k order.tier alb made s.before r s.row in
      record {
        row = r;
        found = s.found;
        status = st;
        desired = de;
        error = er;
        owned_by = rw own at ow;
      }

  release-Returns :
      (order : Order) (k : String) (o : Outputs) (made : Made)
      → made.owned_by ≡ owner_of order
      → Returns
          (λ r w. IsProvisioned order k w)
          (release p chart_dir guardrails_dir tofu_dir order k o made)
  unfolding release
  release-Returns order k o made own =
      let merged : List Row → IdentityMaps =
        λ rows. merge_identity_maps o (with_made k made (cp_identities rows)) in
      Returns-rest (store_upsert k (identity_fields order.tier made)) _ (λ _.
        Returns-rest store_list _ (λ rows. Returns-rest (node_ip p) _ (λ ip.
          Returns-rest
            (onboard_first p chart_dir guardrails_dir tofu_dir (platform_tenant o (merged rows).ids)
              k o ip (maps_of (merged rows)))
            _
            (λ _.
              Returns-rest (onboard p chart_dir guardrails_dir k o ip (maps_of (merged rows))) _
                (λ _.
                  Returns-rest
                    (load_balancer p chart_dir guardrails_dir tofu_dir k o (uses_controller o)) _
                    (λ alb.
                      Returns-weaken _ (upsert-Returns k (active_fields order.tier k alb made))
                        (λ r w. provisioned order k alb made r w own)))))))

  body-Returns :
      (order : Order) (k : String)
      → Returns
          (λ r w. IsProvisioned order k w)
          (provision_body p chart_dir guardrails_dir tofu_dir order k)
  unfolding provision_body
  body-Returns order k =
      Returns-bind (identity_for p chart_dir guardrails_dir tofu_dir order k) _
        (identity_for-Returns order k)
        (λ found w own. (release-Returns order k found.0 found.1 own).at w)

  returned :
      (r : Result Row) (w : World p)
      → (continue {p = p} r (λ _. pure (tt {0})) w).0 ≡ ok tt
      → (a : Row) × (r ≡ ok a) × ((continue {p = p} r (λ _. pure (tt {0})) w).1 ≡ w)
  returned (ok a) w h = (a, refl, refl)
  returned (err e') w h = cc

  -- When the provisioning of a valid tenant id returns, the tenant's row is there, with the status
  -- ACTIVE, the desired status ACTIVE and no error, and it is owned by OpenTofu if the order asked for the
  -- infrastructure or for no identity, and by the control plane otherwise.
  pub provision_returns :
      (k : String) (order : Order) (w : World p)
      → IsTenantId k
      → (provision p chart_dir guardrails_dir tofu_dir k order w).0 ≡ ok tt
      → IsProvisioned order k (provision p chart_dir guardrails_dir tofu_dir k order w).1
  provision_returns k order w v h =
      let start = (store_upsert k (provisioning_fields order.tier) w).1 in
      let tried =
        catch (provision_body p chart_dir guardrails_dir tofu_dir order k)
          (fail_provision p chart_dir guardrails_dir tofu_dir order.tier k) in
      let t = provision_try p chart_dir guardrails_dir tofu_dir k order w v in
      let (r, ends, same) = returned (tried start).0 (tried start).1 (rw t at h) in
      rw t (
        rw same (
          (Returns-catch _ _ (body-Returns order k)
              (fail_provision-Fails p chart_dir guardrails_dir tofu_dir k order.tier)).at
            start r ends))

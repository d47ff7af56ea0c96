-- ===== src/Identity/Names.antt =====
-- What `ensure_tenant_identity` of control-plane/aws_identity.py returns.
use saas_ntier_lab.Prelude.{String, ◌≡◌, refl, some}
use saas_ntier_lab.Errors.Retry.Results.{with_retry_ok}
use saas_ntier_lab.Ids.{validate_tenant_id}
use saas_ntier_lab.Store.{Owner}
use saas_ntier_lab.Exec.{Platform, World, Outputs, AwsCall, lift}
use saas_ntier_lab.Exec.Ends.{Fails-raise}
use saas_ntier_lab.Exec.Returns.{Returns, Returns-rest, Returns-catch, Returns-pure}
use saas_ntier_lab.AwsIdentity.{policy_name}
use saas_ntier_lab.Identity.Documents.{secret_payload, trust_policy, secret_policy}
use saas_ntier_lab.Identity.{
  Made, tenant_secret, tenant_role, needs_host, needs_oidc, call, password, ensure_secret,
  ensure_role, make_identity, identity_once, classified, ensure_tenant_identity, secret_payload,
  trust_policy, secret_policy, retried, retry_wait,
}

-- The identity is the control plane's, under the tenant's own secret name.
abbrev pub IsOwn : Outputs → String → Made → Type 0
IsOwn o k made =
    (made.owned_by ≡ Owner.control_plane) × (made.secret_name ≡ some (tenant_secret o k))

module _ (p : Platform) where
  make-Returns :
      (o : Outputs) (k : String)
      → Returns (λ made (w : World p). IsOwn o k made) (make_identity p o k)
  unfolding make_identity
  make-Returns o k = Returns-rest (lift (needs_host o.rds_host)) _ (λ host.
      Returns-rest (lift (needs_oidc o.oidc_provider_arn o.oidc_provider_url)) _ (λ oidc.
        Returns-rest (call p AwsCall.get_caller_identity) _ (λ _.
          Returns-rest (password p 20) _ (λ secret.
            Returns-rest (ensure_secret p (tenant_secret o k) (secret_payload host k secret) k) _
              (λ secret_arn.
                Returns-rest (ensure_role p (tenant_role o k) (trust_policy oidc.0 oidc.1 k) k) _
                  (λ role_arn.
                    Returns-rest
                      (call p (
                        AwsCall.put_role_policy (tenant_role o k) (policy_name o k)
                          (secret_policy secret_arn)))
                      _
                      (λ _.
                        Returns-pure
                          (record {
                            secret_name = some (tenant_secret o k);
                            irsa_role_arn = some role_arn;
                            owned_by = Owner.control_plane;
                          })
                          (λ w. (refl, refl)))))))))

  once-Returns :
      (o : Outputs) (k : String)
      → Returns (λ made (w : World p). IsOwn o k made) (identity_once p o k)
  unfolding identity_once
  once-Returns o k =
      Returns-catch (make_identity p o k) _ (make-Returns o k) (λ e. Fails-raise (classified p e))

  pub ensure_tenant_identity-Returns :
      (o : Outputs) (k : String)
      → Returns
          (λ made (w : World p). (made.owned_by ≡ Owner.control_plane))
          (ensure_tenant_identity p o k)
  unfolding ensure_tenant_identity
  ensure_tenant_identity-Returns o k = Returns-rest (lift (validate_tenant_id (some k))) _ (λ j.
      record {
        at = λ w made h.
            (with_retry_ok (identity_once p o j) (retried p) (retry_wait p) (IsOwn o j)
              (λ s a. (once-Returns o j).at s a) 5 w made h).0;
      })

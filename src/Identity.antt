-- ===== src/Identity.antt =====
-- `ensure_tenant_identity` of control-plane/aws_identity.py: a tenant's secret and IAM role. The policy
-- documents and the secret's text are JSON, written as the code writes them.
pub mod Names
pub mod Documents
pub mod Keeps
use saas_ntier_lab.Prelude.{
  ℕ, zero, suc, ◌+◌, ◌*◌, ◌^◌, String, Bool, true, false, not, ◌&&◌, Option, none, some, List, [],
  ◌∷◌, ◌==◌, ◌<>◌, or_else, truthy, if◌then◌else◌,
}
use saas_ntier_lab.Errors.{Result, ok, err, Error, Kind, retryable, classify_aws_error}
use saas_ntier_lab.Errors.Retry.{with_retry}
use saas_ntier_lab.Ids.{validate_tenant_id}
use saas_ntier_lab.Identity.Documents.{secret_payload, trust_policy, secret_policy}
use saas_ntier_lab.Store.{Owner}
use saas_ntier_lab.Exec.{
  Platform, World, Exec, Outputs, AwsCall, AwsReply, Answer, done, client_error, ◌>>=◌, ◌>>◌, pure,
  raise, catch, handle, continue, lift, aws_call, choose, sleep_for, time_now,
}
use saas_ntier_lab.Exec.Poll.{Polled, found, late, unfinished, poll}
use saas_ntier_lab.Shell.{error_of}
use saas_ntier_lab.AwsIdentity.{name_prefix, policy_name}
use saas_ntier_lab.Onboard.{onboard_error}

abbrev pub alphabet : String
alphabet = "abcdefghijklmnopqrstuvwxyzABCDEFGHIJKLMNOPQRSTUVWXYZ0123456789!#$%&*()-_=+[]{}<>:?"

-- The dict that `ensure_tenant_identity` returns; `provision` makes such a dict too.
pub record Made : Type 0 where
  pub secret_name : Option String
  pub irsa_role_arn : Option String
  pub owned_by : Owner

abbrev pub tenant_secret : Outputs → String → String
tenant_secret o tenant_id = name_prefix o <> "/rds/tenant-" <> tenant_id

abbrev pub tenant_role : Outputs → String → String
tenant_role o tenant_id = name_prefix o <> "-tenant-" <> tenant_id

-- An output that has to be there.
pub needs_host : Option String → Result String
needs_host host =
    if truthy host
    then ok (or_else host "")
    else err (onboard_error "tofu output rds_host is empty")

pub needs_oidc : Option String → Option String → Result (String × String)
needs_oidc arn url =
    if truthy arn && truthy url
    then ok (or_else arn "", or_else url "")
    else err (onboard_error "tofu outputs oidc_provider_arn / oidc_provider_url required for IRSA")

abbrev pub is_client : Kind → Bool
is_client (Kind.client_error _) = true
is_client _ = false

module _ (p : Platform) where
  -- `_password`, with so many characters left
  pub password : ℕ → Exec p String
  unfolding choose
  password zero = pure ""
  password (suc n) = do c ← choose alphabet; rest ← password n; pure (c <> rest)

  -- A boto3 call whose `ClientError` is raised.
  pub answered : AwsReply → Exec p Answer
  answered (done a) = pure a
  answered (client_error code message) = raise (error_of (Kind.client_error code) message)

  unfoldable pub call : AwsCall → Exec p Answer
  unfolding answered aws_call
  call c = do r ← aws_call c; answered r

  -- `sm.create_secret(…)["ARN"]`
  pub create_secret : String → String → String → Exec p String
  unfolding call
  create_secret name payload tenant_id = do
    a ← call (AwsCall.create_secret name payload tenant_id)
    pure a.arn

  -- One look at the secret that is to go; `some` is that it has gone.
  pub gone_yet : AwsReply → Exec p (Option (Unit {0}))
  gone_yet (done _) = pure none
  gone_yet (client_error code message) =
      if code == "ResourceNotFoundException"
      then pure (some tt)
      else raise (error_of (Kind.client_error code) message)

  pub waited : Polled (Unit {0}) → Exec p (Unit {0})
  waited unfinished = raise (error_of Kind.out_of_fuel "")
  waited _ = pure tt

  -- `describe_secret` that answers: the secret is there, or its deletion is pending. The wait ends at
  -- its deadline without an error.
  pub replace_pending : String → String → String → Exec p String
  unfolding aws_call poll gone_yet waited create_secret
  replace_pending name payload tenant_id = do
    _ ← aws_call (AwsCall.delete_secret name 0)
    t ← time_now
    r ← poll 2 (do a ← aws_call (AwsCall.describe_secret name); gone_yet a) 121 (t + 120)
    waited r
    create_secret name payload tenant_id

  pub secret_described : String → String → String → Answer → Exec p String
  unfolding replace_pending
  secret_described name payload tenant_id a =
      if a.deleted then replace_pending name payload tenant_id else pure a.arn

  -- The `except ClientError` around the secret, and the one around the role.
  pub create_missing_secret : String → String → String → Error → Exec p String
  unfolding create_secret
  create_missing_secret name payload tenant_id e = elim e.kind [
    | Kind.client_error code ↦
        if code == "ResourceNotFoundException"
        then create_secret name payload tenant_id
        else raise e
    | _ ↦ raise e
  ]

  pub create_missing_role : String → String → String → Error → Exec p String
  unfolding call
  create_missing_role name trust tenant_id e = elim e.kind [
    | Kind.client_error code ↦
        if code == "NoSuchEntity"
        then (do a ← call (AwsCall.create_role name trust tenant_id); pure a.arn)
        else raise e
    | _ ↦ raise e
  ]

  -- The secret's ARN; the secret is made if it is not there.
  unfoldable pub ensure_secret : String → String → String → Exec p String
  unfolding call secret_described create_missing_secret
  ensure_secret name payload tenant_id =
      catch (do a ← call (AwsCall.describe_secret name); secret_described name payload tenant_id a)
        (create_missing_secret name payload tenant_id)

  -- The role's ARN; its trust policy is written anew, or the role is made.
  unfoldable pub ensure_role : String → String → String → Exec p String
  unfolding call create_missing_role
  ensure_role name trust tenant_id =
      catch
        (do
          a ← call (AwsCall.get_role name)
          _ ← call (AwsCall.update_assume_role_policy name trust)
          pure a.arn)
        (create_missing_role name trust tenant_id)

  -- `_ensure_tenant_identity`
  unfoldable pub make_identity : Outputs → String → Exec p Made
  unfolding needs_host needs_oidc call password secret_payload trust_policy secret_policy
      ensure_secret ensure_role
  make_identity o tenant_id = do
    host ← lift (needs_host o.rds_host)
    oidc ← lift (needs_oidc o.oidc_provider_arn o.oidc_provider_url)
    _ ← call AwsCall.get_caller_identity
    secret ← password 20
    secret_arn ←
        ensure_secret (tenant_secret o tenant_id) (secret_payload host tenant_id secret) tenant_id
    role_arn ←
        ensure_role (tenant_role o tenant_id) (trust_policy oidc.0 oidc.1 tenant_id) tenant_id
    _ ← call (
        AwsCall.put_role_policy (tenant_role o tenant_id) (policy_name o tenant_id)
          (secret_policy secret_arn))
    pure (record {
      secret_name = some (tenant_secret o tenant_id);
      irsa_role_arn = some role_arn;
      owned_by = Owner.control_plane;
    })

  -- `_raise_aws` of a `ClientError`
  abbrev pub classified : Error → Error
  classified e = elim e.kind [
    | Kind.client_error code ↦ classify_aws_error (or_else (some code) "Unknown") e.message
    | _ ↦ e
  ]

  -- `_op`
  unfoldable pub identity_once : Outputs → String → Exec p Made
  unfolding make_identity
  identity_once o tenant_id = catch (make_identity o tenant_id) (λ e. raise (classified e))

  -- The wait of `with_retry`: so many times the base delay of 0.4 seconds
  abbrev pub retry_wait : ℕ → World p → World p
  retry_wait k w = record w { ext = p.sleep (k * 400) w.ext }

  abbrev pub retried : Error → Bool
  retried e = retryable e.kind

  -- `ensure_tenant_identity`
  unfoldable pub ensure_tenant_identity : Outputs → String → Exec p Made
  unfolding identity_once with_retry
  ensure_tenant_identity o tenant_id = do
    k ← lift (validate_tenant_id (some tenant_id))
    with_retry (identity_once o k) retried retry_wait 5

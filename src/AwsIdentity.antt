-- ===== src/AwsIdentity.antt =====
-- control-plane/aws_identity.py: removing a tenant's IAM role and secret, and merging the identity
-- maps. (`ensure_tenant_identity` is in Identity.)
use saas_ntier_lab.Prelude.{
  String, code, Bool, true, false, not, ◌&&◌, Option, none, some, List, [], ◌∷◌, ◌++◌, elem, eqb,
  ◌==◌, ◌<>◌, or_else, truthy, starts_with, insert, sort_by, if◌then◌else◌,
}
use saas_ntier_lab.Errors.{classify_aws_error}
use saas_ntier_lab.Ids.{validate_tenant_id}
use saas_ntier_lab.Store.{Row, Owner}
use saas_ntier_lab.Safety.{secret_recovery_window_days}
use saas_ntier_lab.Exec.{
  Platform, Exec, Outputs, AwsReply, done, client_error, delete_role_policy, delete_role,
  delete_secret, ◌>>=◌, ◌>>◌, pure, raise, lift, aws_call,
}

-- `text.rsplit("/", 1)[-1]`: what follows the last slash, or the whole text
after_slash : String → String → String
after_slash acc String.[] = acc
after_slash acc (String.◌∷◌ c s) =
    after_slash (if eqb (code c) b'/' then "" else acc <> String.◌∷◌ c "") s

abbrev pub name_prefix : Outputs → String
name_prefix o = or_else o.name_prefix "ntier-dev"

-- The role that `delete_tenant_irsa` deletes.
unfoldable pub role_name : Outputs → String → Option String → String
unfolding after_slash starts_with
role_name o tenant_id none = name_prefix o <> "-tenant-" <> tenant_id
role_name o tenant_id (some arn) =
    if starts_with arn "arn:" then after_slash "" arn else name_prefix o <> "-tenant-" <> tenant_id

abbrev pub policy_name : Outputs → String → String
policy_name o tenant_id = name_prefix o <> "-tenant-" <> tenant_id <> "-secrets"

abbrev pub secret_id : Outputs → String → Option String → String
secret_id o tenant_id secret_name =
    or_else secret_name (name_prefix o <> "/rds/tenant-" <> tenant_id)

module _ (p : Platform) where
  -- A `ClientError` is passed over if its code is one of `gone`, and classified if not.
  unfoldable pub unless_gone : List String → AwsReply → Exec p (Unit {0})
  unless_gone gone (done _) = pure tt
  unless_gone gone (client_error code message) =
      if elem code gone
      then pure tt
      else raise (classify_aws_error (or_else (some code) "Unknown") message)

  unfoldable pub delete_tenant_irsa : Outputs → String → Option String → Exec p (Unit {0})
  unfolding unless_gone aws_call
  delete_tenant_irsa o tenant_id role_arn = do
    tid ← lift (validate_tenant_id (some tenant_id))
    let role = role_name o tid role_arn
    policy_reply ← aws_call (delete_role_policy role (policy_name o tid))
    unless_gone ("NoSuchEntity" ∷ []) policy_reply
    role_reply ← aws_call (delete_role role)
    unless_gone ("NoSuchEntity" ∷ []) role_reply

  unfoldable pub delete_tenant_secret : Outputs → String → Option String → Exec p (Unit {0})
  unfolding unless_gone aws_call
  delete_tenant_secret o tenant_id secret_name = do
    tid ← lift (validate_tenant_id (some tenant_id))
    days ← lift (secret_recovery_window_days (p.environ "CP_SECRET_RECOVERY_DAYS") none)
    reply ← aws_call (delete_secret (secret_id o tid secret_name) days)
    unless_gone ("ResourceNotFoundException" ∷ "InvalidRequestException" ∷ []) reply

  -- `delete_tenant_identity`
  unfoldable pub delete_tenant_identity :
      Outputs → String → Option String → Option String → Exec p (Unit {0})
  unfolding delete_tenant_irsa delete_tenant_secret
  delete_tenant_identity o tenant_id secret_name role_arn =
      delete_tenant_irsa o tenant_id role_arn >> delete_tenant_secret o tenant_id secret_name

-- An entry of `_cp_identities`: the maps of one tenant.
pub record Identity : Type 0 where
  pub secret_name : Option String
  pub irsa_role_arn : Option String

pub record IdentityMaps : Type 0 where
  pub ids : List String
  pub irsa : List (String × String)
  pub secrets : List (String × String)

abbrev set_truthy : String → Option String → List (String × String) → List (String × String)
set_truthy k none d = d
set_truthy k (some v) d = if v == "" then d else insert k v d

-- One round of the loop of `merge_identity_maps`.
merge_one : String → Identity → IdentityMaps → IdentityMaps
merge_one tid meta m = record {
  ids = if elem tid m.ids then m.ids else m.ids ++ tid ∷ [];
  irsa = set_truthy tid meta.irsa_role_arn m.irsa;
  secrets = set_truthy tid meta.secret_name m.secrets;
}

merge_from : List (String × Identity) → IdentityMaps → IdentityMaps
unfolding merge_one
merge_from [] m = m
merge_from ((tid, meta) ∷ extra) m = merge_from extra (merge_one tid meta m)

abbrev extra_key : String × Identity → String
extra_key (tid, meta) = tid

unfoldable pub merge_identity_maps : Outputs → List (String × Identity) → IdentityMaps
unfolding merge_from sort_by
merge_identity_maps o extra =
    merge_from (sort_by extra_key extra) (record {
      ids = o.tenant_ids;
      irsa = o.tenant_irsa_role_arns;
      secrets = o.tenant_secret_names;
    })

is_cp : Option Owner → Bool
is_cp (some Owner.control_plane) = true
is_cp _ = false

-- `_cp_identities` of control-plane/lifecycle.py and of control-plane/provisioner.py, on the listed
-- rows.
unfoldable pub cp_identities : List Row → List (String × Identity)
unfolding is_cp
cp_identities [] = []
cp_identities (r ∷ rows) =
    let rest = cp_identities rows in
    if not (r.id == "") && is_cp r.owned_by && truthy r.secret_name && truthy r.irsa_role_arn
    then (r.id, record { secret_name = r.secret_name; irsa_role_arn = r.irsa_role_arn }) ∷ rest
    else rest

-- ===== src/Adopt.antt =====
-- control-plane/adopt.py: tenants whose secret and role exist come under the control plane.
pub mod Owned
pub mod Keeps
use saas_ntier_lab.Prelude.{
  ℕ, zero, suc, String, Bool, true, false, not, ◌&&◌, Option, none, some, List, [], ◌∷◌, ◌++◌, elem,
  ◌==◌, ◌<>◌, or_else, truthy, codes, length, strip, starts_with, drop, sort_by, rstrip_slash,
  if◌then◌else◌,
}
use saas_ntier_lab.Errors.{Result, ok, err, Error, Kind}
use saas_ntier_lab.Ids.{validate_tenant_id}
use saas_ntier_lab.Store.{Row, Fields, Status, Desired, Owner, no_fields, desired_text, status_text}
use saas_ntier_lab.Exec.{
  Platform, Exec, Outputs, AwsCall, AwsReply, Answer, done, client_error, ◌>>=◌, ◌>>◌, pure, raise,
  catch, continue, handle, store_get, store_upsert, aws_call, read_text, tofu_outputs,
}
use saas_ntier_lab.Shell.{error_of}
use saas_ntier_lab.AwsIdentity.{name_prefix}
use saas_ntier_lab.Identity.{tenant_secret, tenant_role, call}
use saas_ntier_lab.Onboard.{onboard_error, path_join}
use saas_ntier_lab.Provision.{endpoint_of}

-- `marker`
abbrev marker : Outputs → String
marker o = name_prefix o <> "/rds/tenant-"

-- The tenant ids of one page of secrets, added to those that have been found.
pub add_names : Outputs → List String → List String → List String
unfolding starts_with drop
add_names o [] ids = ids
add_names o (name ∷ names) ids =
    let tid = drop (length (codes (marker o))) name in
    add_names o names (
      if starts_with name (marker o) && not (tid == "") && not (elem tid ids)
      then ids ++ tid ∷ []
      else ids)

-- `existing.get(column) or default`, of the row that may not be there
abbrev pub text_of : {A : Type 0} → (A → String) → A → Option A → A
text_of shown default none = default
text_of shown default (some a) = if shown a == "" then default else a

abbrev desired_of : Option Row → Option Desired
desired_of none = none
desired_of (some r) = some r.desired_status

abbrev status_of : Option Row → Option Status
status_of none = none
status_of (some r) = some r.status

abbrev tier_of : Option Row → Option String
tier_of none = none
tier_of (some r) = r.tier

abbrev endpoint_kept : Option Row → Option String
endpoint_kept none = none
endpoint_kept (some r) = r.endpoint

abbrev or_kept : Option String → Option String → Option String
or_kept (some s) kept = some s
or_kept none kept = kept

-- The keyword arguments of the write of `adopt_tenants`.
abbrev pub adopted_fields : Outputs → String → String → String → Option Row → Fields
adopted_fields o alb tid role_arn existing = record no_fields {
  desired_status = some (text_of desired_text Desired.active (desired_of existing));
  status = some (text_of status_text Status.active (status_of existing));
  tier = some (some (or_else (tier_of existing) "standard"));
  owned_by = some (some Owner.control_plane);
  secret_name = some (some (tenant_secret o tid));
  irsa_role_arn = some (some role_arn);
  endpoint = some (or_kept (endpoint_of alb tid) (endpoint_kept existing));
  path_prefix = some (some ("/tenant-" <> tid));
  error = some none;
}

abbrev add_row : Option Row → List Row → List Row
add_row none rows = rows
add_row (some r) rows = r ∷ rows

-- What the handler around a file's reading does with an error: only an `OSError` is caught.
pub no_file : {p : Platform} → Error → Exec p String
no_file e = elim e.kind [ Kind.os_error ↦ pure "" | _ ↦ raise e ]

module _ (p : Platform) (tofu_dir : String) where
  pub stripped_file : Exec p String
  unfolding strip read_text path_join
  stripped_file = do text ← read_text (path_join tofu_dir ".alb_url"); pure (strip text)

  -- `alb`
  pub known_url : Outputs → Exec p String
  unfolding rstrip_slash stripped_file no_file
  known_url o =
      let alb = rstrip_slash (or_else o.alb_url "") in
      if alb == "" then catch stripped_file no_file else pure alb

  -- The ids of the secrets, from the page of `token` on, with at most so many pages
  pub discover : ℕ → Outputs → Option String → List String → Exec p (List String)
  unfolding call add_names
  discover zero o token ids = raise (error_of Kind.out_of_fuel "")
  discover (suc pages) o token ids = do
    a ← call p (AwsCall.list_secrets token)
    let next = discover pages o a.next_token (add_names o a.names ids)
    if truthy a.next_token then next else pure (add_names o a.names ids)

  -- `if not ids`
  pub chosen : ℕ → Outputs → List String → Exec p (List String)
  unfolding discover sort_by
  chosen pages o [] = do ids ← discover pages o none []; pure (sort_by (λ (k : String). k) ids)
  chosen pages o (k ∷ ks) = pure (k ∷ ks)

  -- Whether a call is answered; a `ClientError` with the code is not there, and another is raised.
  pub present : String → AwsReply → Exec p (Option Answer)
  present missing (done a) = pure (some a)
  present missing (client_error code message) =
      if code == missing then pure none else raise (error_of (Kind.client_error code) message)

  -- The two tags; a `ClientError` ends them.
  pub tag_next : String → String → AwsReply → Exec p (Unit {0})
  unfolding aws_call
  tag_next role tid (done a) = do _ ← aws_call (AwsCall.tag_role role tid); pure tt
  tag_next role tid (client_error code message) = pure tt

  -- The tags and the write, for a tenant whose role is there
  pub adopt_row : Outputs → String → String → Option Answer → Exec p (Option Row)
  unfolding aws_call tag_next store_get store_upsert
  adopt_row o alb tid none = pure none
  adopt_row o alb tid (some role) = do
    tagged ← aws_call (AwsCall.tag_secret (tenant_secret o tid) tid)
    tag_next (tenant_role o tid) tid tagged
    existing ← store_get tid
    item ← store_upsert tid (adopted_fields o alb tid role.arn existing)
    pure (some item)

  pub adopt_role : Outputs → String → String → Option Answer → Exec p (Option Row)
  unfolding aws_call present adopt_row
  adopt_role o alb tid none = pure none
  adopt_role o alb tid (some secret) = do
    reply ← aws_call (AwsCall.get_role (tenant_role o tid))
    role ← present "NoSuchEntity" reply
    adopt_row o alb tid role

  -- One tenant; `none` is that it is skipped.
  pub adopt_valid : Outputs → String → Result String → Exec p (Option Row)
  unfolding aws_call present adopt_role
  adopt_valid o alb (err e) = pure none
  adopt_valid o alb (ok tid) = do
    reply ← aws_call (AwsCall.describe_secret (tenant_secret o tid))
    secret ← present "ResourceNotFoundException" reply
    adopt_role o alb tid secret

  -- The loop over the ids
  unfoldable pub adopt_each : Outputs → String → List String → Exec p (List Row)
  unfolding adopt_valid validate_tenant_id
  adopt_each o alb [] = pure []
  adopt_each o alb (tid ∷ ids) = do
    item ← adopt_valid o alb (validate_tenant_id (some tid))
    rest ← adopt_each o alb ids
    pure (add_row item rest)

  pub needs_ids : List String → Exec p (List String)
  needs_ids [] = raise (onboard_error "no tenant secrets found to adopt")
  needs_ids (k ∷ ks) = pure (k ∷ ks)

  -- `adopt_tenants`; `[]` is also `None`, and `pages` bounds the pages of secrets.
  unfoldable pub adopt_tenants : ℕ → List String → Exec p (List Row)
  unfolding tofu_outputs known_url chosen needs_ids adopt_each
  adopt_tenants pages tenant_ids = do
    o ← tofu_outputs
    alb ← known_url o
    found ← chosen pages o tenant_ids
    ids ← needs_ids found
    adopt_each o alb ids

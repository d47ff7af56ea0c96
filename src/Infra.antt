-- ===== src/Infra.antt =====
-- control-plane/infra.py: the tenant ids in the OpenTofu variables, and `tofu apply`.
pub mod Tfvars
pub mod Keeps
use saas_ntier_lab.Prelude.{
  ℕ, String, Bool, true, false, not, ◌&&◌, ◌||◌, Option, none, some, List, [], ◌∷◌, ◌++◌, elem,
  ◌==◌, ◌<>◌, or_else, strip, contains, rstrip_slash, if◌then◌else◌,
}
use saas_ntier_lab.Errors.{Result, ok, err, Error, Kind}
use saas_ntier_lab.Exec.{
  Platform, Exec, Outputs, ◌>>=◌, ◌>>◌, pure, raise, continue, lift, read_text, write_text, is_file,
  fetch_url, which_of, tofu_outputs,
}
use saas_ntier_lab.Infra.Tfvars.{Found, search_ids, parse_ids, replace_ids}
use saas_ntier_lab.Onboard.{onboard_error, run_checked, path_join}

abbrev pub tfvars_of : String → String
tfvars_of tofu_dir = path_join tofu_dir "terraform.tfvars"

-- What `ensure_tenant_in_tfvars` writes, if anything.
unfoldable pub edited : String → String → Option Found → Result (Option String)
unfolding parse_ids replace_ids
edited tfvars tenant_id none = err (onboard_error ("no tenant_ids = [...] line in " <> tfvars))
edited tfvars tenant_id (some m) =
    if elem tenant_id (parse_ids m.inner)
    then ok none
    else ok (some (replace_ids m (parse_ids m.inner ++ tenant_id ∷ [])))

pub cidr_of : String → Result String
cidr_of ip =
    if ip == ""
    then err (onboard_error "could not detect public IP for my_ip")
    else ok (ip <> "/32")

module _ (p : Platform) where
  pub write_edit : String → Option String → Exec p Bool
  write_edit tfvars none = pure false
  write_edit tfvars (some text) = do write_text tfvars text; pure true

  -- `ensure_tenant_in_tfvars`
  unfoldable pub ensure_tenant_in_tfvars : String → String → Exec p Bool
  unfolding read_text search_ids edited write_edit
  ensure_tenant_in_tfvars tfvars tenant_id = do
    text ← read_text tfvars
    edit ← lift (edited tfvars tenant_id (search_ids text))
    write_edit tfvars edit

  -- `public_ip_cidr`
  unfoldable pub public_ip_cidr : Exec p String
  unfolding fetch_url cidr_of strip
  public_ip_cidr = do ip ← fetch_url "https://checkip.amazonaws.com"; lift (cidr_of (strip ip))

  -- `tofu_bin` of helm/test-app/onboard_tenant.py
  pub terraform_bin : Option String → Exec p String
  terraform_bin (some path) = pure path
  terraform_bin none = raise (onboard_error "tofu (or terraform) not found on PATH")

  pub tofu_or : Option String → Exec p String
  unfolding terraform_bin
  tofu_or (some path) = pure path
  tofu_or none = which_of "terraform" >>= terraform_bin

  unfoldable pub tofu_bin : Exec p String
  unfolding which_of tofu_or
  tofu_bin = which_of "tofu" >>= tofu_or

  pub cidr_or_public : Option String → Exec p String
  unfolding public_ip_cidr
  cidr_or_public my_ip = if or_else my_ip "" == "" then public_ip_cidr else pure (or_else my_ip "")

  -- `apply_workload`
  unfoldable pub apply_workload : Option String → Exec p (Unit {0})
  unfolding cidr_or_public tofu_bin run_checked
  apply_workload my_ip = do
    cidr ← cidr_or_public my_ip
    bin ← tofu_bin
    run_checked p (
        bin
        ∷ "apply"
        ∷ "-auto-approve"
        ∷ "-var-file=terraform.tfvars"
        ∷ ("-var=my_ip=" <> cidr)
        ∷ [])

  pub apply_if : Bool → Option String → Outputs → Exec p Outputs
  unfolding apply_workload tofu_outputs
  apply_if true my_ip o = apply_workload my_ip >> tofu_outputs
  apply_if false my_ip o = pure o

  pub ensure_in : String → String → Option String → Bool → Exec p Outputs
  unfolding ensure_tenant_in_tfvars tofu_outputs apply_if
  ensure_in tfvars tenant_id my_ip false =
      raise (onboard_error ("missing " <> tfvars <> " (gitignored local file)"))
  ensure_in tfvars tenant_id my_ip true = do
    changed ← ensure_tenant_in_tfvars tfvars tenant_id
    o ← tofu_outputs
    apply_if
        (changed || not (elem tenant_id o.tenant_ids && contains tenant_id o.tenant_irsa_role_arns))
        my_ip o

  -- `ensure_infra`
  unfoldable pub ensure_infra : String → String → Option String → Exec p Outputs
  unfolding is_file ensure_in
  ensure_infra tofu_dir tenant_id my_ip =
      is_file (tfvars_of tofu_dir) >>= ensure_in (tfvars_of tofu_dir) tenant_id my_ip

-- ===== src/Onboard/Main.antt =====
-- `main` of helm/test-app/onboard_tenant.py, on what argparse has read: `tenant` is none if it is not
-- given. `data_dir` and `entries` are those of the registry's opening. It ends with an exit code.

pub mod Ends
use saas_ntier_lab.Prelude.{
  ℕ, String, Bool, true, false, ◌&&◌, not, Option, none, some, List, [], ◌∷◌, ◌==◌, ◌<>◌, elem,
  or_else, truthy, insert, if◌then◌else◌,
}
use saas_ntier_lab.Errors.{Result, ok, err, Error, Kind}
use saas_ntier_lab.Store.{Row}
use saas_ntier_lab.Store.Legacy.{Meta}
use saas_ntier_lab.Exec.{
  Platform, Exec, Outputs, ◌>>=◌, ◌>>◌, pure, raise, catch, handle, continue, is_file, store_list,
  tofu_outputs,
}
use saas_ntier_lab.Opening.{open_store}
use saas_ntier_lab.Onboard.{node_ip, uses_controller, path_join}
use saas_ntier_lab.Onboard.Install.{
  Maps, Texts, platform_tenant, with_tenant, with_platform, onboard_each, publish,
}

-- `ids`, `irsa` and `secs`
pub record Known : Type 0 where
  pub ids : List String
  pub irsa : Texts
  pub secrets : Texts

abbrev pub set_if : String → Option String → Texts → Texts
set_if k none d = d
set_if k (some v) d = if v == "" then d else insert k v d

-- One round of the loop over the registry's rows
pub merge_row : Known → Row → Known
unfolding insert
merge_row m r = if r.id == "" then m else record {
  ids = with_tenant r.id m.ids;
  irsa = set_if r.id r.irsa_role_arn m.irsa;
  secrets = set_if r.id r.secret_name m.secrets;
}

unfoldable pub merge_rows : List Row → Known → Known
unfolding merge_row
merge_rows [] m = m
merge_rows (r ∷ rows) m = merge_rows rows (merge_row m r)

-- The tenants to onboard, in order
abbrev pub or_platform : String → List String → List String
or_platform platform [] = platform ∷ []
or_platform platform (k ∷ ids) = k ∷ ids

pub chosen_tenants : Option String → String → List String → List String
chosen_tenants none platform ids = or_platform platform ids
chosen_tenants (some t) platform ids = if t == platform then t ∷ [] else platform ∷ t ∷ []

-- `ids` before the loop
pub chosen_ids : Option String → String → List String → List String
chosen_ids none platform ids = with_platform platform ids
chosen_ids (some t) platform ids =
    with_platform platform (if t == platform then ids else with_tenant t ids)

-- `tenants[-1]`
abbrev pub last_of : String → List String → String
last_of k [] = k
last_of k (j ∷ ids) = last_of j ids

abbrev pub initial : Outputs → Known
initial o = record {
  ids = o.tenant_ids;
  irsa = o.tenant_irsa_role_arns;
  secrets = o.tenant_secret_names;
}

-- The `except` clauses: `OnboardError` and `CalledProcessError`
abbrev pub is_reported : Kind → Bool
is_reported Kind.onboard_error = true
is_reported Kind.called_process = true
is_reported _ = false

module _ (p : Platform) (chart_dir guardrails_dir data_dir : String)
    (entries : String → Option (List (String × Meta))) where
  pub merge_if : Known → Bool → Exec p Known
  unfolding open_store store_list merge_rows
  merge_if m false = pure m
  merge_if m true = do open_store p data_dir entries; rows ← store_list; pure (merge_rows rows m)

  -- The inner `try`: whatever is raised, the registry is left out.
  pub merged_known : Known → Exec p Known
  unfolding is_file merge_if path_join
  merged_known m = catch (is_file (path_join data_dir "tenants.db") >>= merge_if m) (λ e. pure m)

  -- The body of the outer `try`
  pub main_body : Option String → String → Exec p (Unit {0})
  unfolding tofu_outputs node_ip merged_known chosen_tenants chosen_ids onboard_each publish
  main_body tenant tofu_dir = do
    o ← tofu_outputs
    ip ← node_ip p
    let platform = platform_tenant o o.tenant_ids
    m ← merged_known (initial o)
    onboard_each p chart_dir guardrails_dir (chosen_tenants tenant platform m.ids) o ip (record {
      ids = some (chosen_ids tenant platform m.ids);
      irsa = some m.irsa;
      secrets = some m.secrets;
    })
    publish p chart_dir guardrails_dir (last_of platform (chosen_tenants tenant platform m.ids))
        tofu_dir (uses_controller o)

  pub report_error : Error → Exec p ℕ
  report_error e = if is_reported e.kind then pure 1 else raise e

  pub onboarded : Option String → String → Exec p ℕ
  unfolding main_body report_error
  onboarded tenant tofu_dir = catch (main_body tenant tofu_dir >> pure 0) report_error

  -- From the arguments on; `parser.error` exits with 2.
  unfoldable pub main : Option String → Bool → String → Exec p ℕ
  unfolding onboarded
  main tenant all tofu_dir =
      if truthy tenant && not all
      then onboarded tenant tofu_dir
      else if all && not (truthy tenant)
      then onboarded none tofu_dir
      else pure 2

-- ===== src/Infra/Keeps.antt =====
-- `ensure_infra` of control-plane/infra.py leaves the registry alone.
use saas_ntier_lab.Prelude.{String, Bool, true, false, Option, none, some}
use saas_ntier_lab.Store.{Table}
use saas_ntier_lab.Exec.{Platform, Outputs}
use saas_ntier_lab.Exec.Keeps.{Keeps}
use saas_ntier_lab.Exec.Frame.{Tabled, tabled_rules}
use saas_ntier_lab.Onboard.Keeps.{run_checked-Keeps}
use saas_ntier_lab.Infra.{
  write_edit, ensure_tenant_in_tfvars, public_ip_cidr, terraform_bin, tofu_or, tofu_bin,
  cidr_or_public, apply_workload, apply_if, ensure_in, ensure_infra,
}

module _ {p : Platform} {Q : Table → Type 0} where
  write_edit-Keeps : (f : String) (t : Option String) → Keeps (Tabled p Q) (write_edit p f t)
  unfolding write_edit
  write_edit-Keeps f none = search tabled_rules
  write_edit-Keeps f (some text) = search tabled_rules

  tfvars-Keeps : (f k : String) → Keeps (Tabled p Q) (ensure_tenant_in_tfvars p f k)
  unfolding ensure_tenant_in_tfvars
  tfvars-Keeps f k = search (tabled_rules, write_edit-Keeps) depth 8

  terraform-Keeps : (o : Option String) → Keeps (Tabled p Q) (terraform_bin p o)
  unfolding terraform_bin
  terraform-Keeps none = search tabled_rules
  terraform-Keeps (some f) = search tabled_rules

  tofu_or-Keeps : (o : Option String) → Keeps (Tabled p Q) (tofu_or p o)
  unfolding tofu_or
  tofu_or-Keeps none = search (tabled_rules, terraform-Keeps)
  tofu_or-Keeps (some f) = search tabled_rules

  apply-Keeps : (ip : Option String) → Keeps (Tabled p Q) (apply_workload p ip)
  unfolding apply_workload cidr_or_public public_ip_cidr tofu_bin
  apply-Keeps ip = search (tabled_rules, tofu_or-Keeps, run_checked-Keeps) depth 12

  apply_if-Keeps :
      (b : Bool) (ip : Option String) (o : Outputs) → Keeps (Tabled p Q) (apply_if p b ip o)
  unfolding apply_if
  apply_if-Keeps true ip o = search (tabled_rules, apply-Keeps)
  apply_if-Keeps false ip o = search tabled_rules

  ensure_in-Keeps :
      (f k : String) (ip : Option String) (b : Bool) → Keeps (Tabled p Q) (ensure_in p f k ip b)
  unfolding ensure_in
  ensure_in-Keeps f k ip true = search (tabled_rules, tfvars-Keeps, apply_if-Keeps) depth 8
  ensure_in-Keeps f k ip false = search tabled_rules

  pub infra-Keeps :
      (dir k : String) (ip : Option String) → Keeps (Tabled p Q) (ensure_infra p dir k ip)
  unfolding ensure_infra
  infra-Keeps dir k ip = search (tabled_rules, ensure_in-Keeps)

-- ===== src/Adopt/Keeps.antt =====
-- `adopt_tenants` of control-plane/adopt.py and the registry's invariant.
use saas_ntier_lab.Prelude.{ℕ, zero, suc, String, Option, none, some, List, [], ◌∷◌}
use saas_ntier_lab.Errors.{Result, ok, err, Error, Kind}
use saas_ntier_lab.Ids.{validate_tenant_id}
use saas_ntier_lab.Exec.{Platform, Exec, Outputs, AwsReply, Answer, done, client_error}
use saas_ntier_lab.Exec.Keeps.{
  Keeps, Keeps-bind, Keeps-pure, Keeps-raise, Registered, registered_rules,
}
use saas_ntier_lab.Exec.Frame.{framed-Registered}
use saas_ntier_lab.Identity.Keeps.{call-Keeps}
use saas_ntier_lab.Adopt.{
  no_file, stripped_file, known_url, discover, chosen, present, tag_next, adopt_row, adopt_role,
  adopt_valid, adopt_each, needs_ids, adopt_tenants,
}

module _ {p : Platform} (tofu_dir : String) where
  os-Registered :
      {A : Type 0} (j : Kind) (m n : Exec p A)
      → Keeps (Registered p) m
      → Keeps (Registered p) n
      → Keeps (Registered p) (elim j [ Kind.os_error ↦ m | _ ↦ n ])
  os-Registered Kind.os_error m n km kn = km
  os-Registered _ m n km kn = kn

  no_file-Registered : (e : Error) → Keeps (Registered p) (no_file e)
  unfolding no_file
  no_file-Registered e = os-Registered e.kind _ _ (Keeps-pure "") (Keeps-raise e)

  url-Registered : (o : Outputs) → Keeps (Registered p) (known_url p tofu_dir o)
  unfolding known_url stripped_file
  url-Registered o = search (registered_rules, no_file-Registered) depth 8

  discover-Registered :
      (pages : ℕ) (o : Outputs) (token : Option String) (ids : List String)
      → Keeps (Registered p) (discover p tofu_dir pages o token ids)
  unfolding discover
  discover-Registered zero o token ids = search registered_rules
  discover-Registered (suc pages) o token ids =
      search (registered_rules, framed-Registered, call-Keeps, discover-Registered pages) depth 8

  chosen-Registered :
      (pages : ℕ) (o : Outputs) (ids : List String)
      → Keeps (Registered p) (chosen p tofu_dir pages o ids)
  unfolding chosen
  chosen-Registered pages o [] = search (registered_rules, discover-Registered)
  chosen-Registered pages o (k ∷ ks) = search registered_rules

  present-Registered :
      (code : String) (r : AwsReply) → Keeps (Registered p) (present p tofu_dir code r)
  unfolding present
  present-Registered code (done a) = search registered_rules
  present-Registered code (client_error c m) = search registered_rules

  tag-Registered :
      (role k : String) (r : AwsReply) → Keeps (Registered p) (tag_next p tofu_dir role k r)
  unfolding tag_next
  tag-Registered role k (done a) = search registered_rules
  tag-Registered role k (client_error c m) = search registered_rules

  row-Registered :
      (o : Outputs) (alb k : String) (a : Option Answer)
      → Keeps (Registered p) (adopt_row p tofu_dir o alb k a)
  unfolding adopt_row
  row-Registered o alb k none = search registered_rules
  row-Registered o alb k (some a) = search (registered_rules, tag-Registered) depth 9

  role-Registered :
      (o : Outputs) (alb k : String) (a : Option Answer)
      → Keeps (Registered p) (adopt_role p tofu_dir o alb k a)
  unfolding adopt_role
  role-Registered o alb k none = search registered_rules
  role-Registered o alb k (some a) =
      search (registered_rules, present-Registered, row-Registered) depth 9

  valid-Registered :
      (o : Outputs) (alb : String) (r : Result String)
      → Keeps (Registered p) (adopt_valid p tofu_dir o alb r)
  unfolding adopt_valid
  valid-Registered o alb (err e) = search registered_rules
  valid-Registered o alb (ok k) =
      search (registered_rules, present-Registered, role-Registered) depth 9

  each-Registered :
      (o : Outputs) (alb : String) (ids : List String)
      → Keeps (Registered p) (adopt_each p tofu_dir o alb ids)
  unfolding adopt_each
  each-Registered o alb [] = search registered_rules
  each-Registered o alb (k ∷ ids) =
      Keeps-bind (adopt_valid p tofu_dir o alb (validate_tenant_id (some k))) _
        (valid-Registered o alb _)
        (λ item.
          Keeps-bind (adopt_each p tofu_dir o alb ids) _ (each-Registered o alb ids)
            (λ rest. search registered_rules))

  needs-Registered : (ids : List String) → Keeps (Registered p) (needs_ids p tofu_dir ids)
  unfolding needs_ids
  needs-Registered [] = search registered_rules
  needs-Registered (k ∷ ids) = search registered_rules

  pub adopt-Registered :
      (pages : ℕ) (ids : List String) → Keeps (Registered p) (adopt_tenants p tofu_dir pages ids)
  unfolding adopt_tenants
  adopt-Registered pages ids =
      search
        (registered_rules, url-Registered, chosen-Registered, needs-Registered, each-Registered)
        depth 12

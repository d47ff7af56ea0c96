-- ===== src/Onboard/Chart.antt =====
-- The Helm arguments that `onboard` of helm/test-app/onboard_tenant.py puts together.
use saas_ntier_lab.Prelude.{
  ℕ, suc, ◌+◌, ◌*◌, ◌%◌, String, Option, none, some, List, [], ◌∷◌, ◌++◌, ◌==◌, ◌<>◌, or_else,
  show_nat, codes, if◌then◌else◌,
}
use saas_ntier_lab.Json.{json_list, json_dict}
use saas_ntier_lab.Exec.{Outputs}

abbrev pub value : String → String → List String
value key text = "--set" ∷ (key <> "=" <> text) ∷ []

abbrev pub json_value : String → String → List String
json_value key text = "--set-json" ∷ (key <> "=" <> text) ∷ []

abbrev pub later : Option ℕ → Option ℕ
later none = none
later (some i) = some (suc i)

-- `xs.index(x)`; `none` is its ValueError
unfoldable pub index : String → List String → Option ℕ
index x [] = none
index x (y ∷ ys) = let rest = later (index x ys) in if x == y then some 0 else rest

pub sum : List ℕ → ℕ
sum [] = 0
sum (n ∷ ns) = n + sum ns

abbrev pub order_at : String → Option ℕ → ℕ
order_at tenant (some i) = (i + 1) * 10
order_at tenant none = 900 + sum (codes tenant) % 90

-- The number of `order`.
unfoldable pub group_order : String → List String → ℕ
unfolding index sum
group_order tenant tenant_ids = order_at tenant (index tenant tenant_ids)

-- `[c for c in [my_ip] if c]`
abbrev pub inbound : String → List String
inbound my_ip = if my_ip == "" then [] else my_ip ∷ []

-- `edge_sets` of the mode `alb_controller`
unfoldable pub controller_sets : Outputs → String → String → String → List String
unfolding json_list show_nat
controller_sets o group order my_ip =
    value "service.type" "ClusterIP"
    ++ value "ingress.enabled" "true"
    ++ value "ingress.groupName" group
    ++ value "ingress.groupOrder" order
    ++ json_value "ingress.inboundCidrs" (json_list (inbound my_ip))
    ++ json_value "networkPolicy.ingressCidrs" (json_list o.public_subnet_cidrs)
    ++ value "networkPolicy.egress.enabled" "true"
    ++ json_value "networkPolicy.egress.postgresCidrs" (json_list o.private_subnet_cidrs)
    ++ (if or_else o.alb_logs_bucket "" == ""
        then []
        else value "ingress.accessLogsBucket" (or_else o.alb_logs_bucket ""))

-- `edge_sets` of the other modes
unfoldable pub node_port_sets : String → ℕ → List String
unfolding json_list show_nat
node_port_sets ip port =
    value "service.type" "NodePort"
    ++ value "service.nodePort" (show_nat port)
    ++ value "ingress.enabled" "false"
    ++ json_value "networkPolicy.ingressCidrs" (json_list ((ip <> "/32") ∷ []))

-- `json.dumps({"eks.amazonaws.com/role-arn": arn})`
unfoldable pub role_annotation : String → String
unfolding json_dict
role_annotation arn = json_dict (("eks.amazonaws.com/role-arn", arn) ∷ [])

-- What `helm` begins with.
unfoldable pub install_command :
    String → String → String → String → String → String → List String → List String
unfolding role_annotation
install_command chart_dir tenant irsa host secret region edge =
    ("helm" ∷ "upgrade" ∷ "--install" ∷ "test-app" ∷ chart_dir ∷ "-n" ∷ ("tenant-" <> tenant) ∷ [])
    ++ value "fullnameOverride" "test-app"
    ++ value "serviceAccount.name" "test-app"
    ++ value "tenant.id" tenant
    ++ value "pathPrefix" ("/tenant-" <> tenant)
    ++ value "quota.enabled" "true"
    ++ value "networkPolicy.enabled" "true"
    ++ json_value "serviceAccount.annotations" (role_annotation irsa)
    ++ value "database.enabled" "true"
    ++ value "database.host" host
    ++ value "database.secretName" secret
    ++ value "region" region
    ++ edge

-- What `helm` ends with for the platform's tenant, whose release migrates the database.
unfoldable pub migrate_sets : String → String → List (String × String) → List String
unfolding role_annotation json_dict
migrate_sets migrator master secrets =
    value "database.migrate" "true"
    ++ json_value "database.migratorServiceAccount.annotations" (role_annotation migrator)
    ++ value "database.masterSecret" master
    ++ json_value "database.tenantSecrets" (json_dict secrets)

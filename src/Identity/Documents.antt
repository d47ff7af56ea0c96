-- ===== src/Identity/Documents.antt =====
-- The JSON documents of control-plane/aws_identity.py: the secret's payload and the role's policies.
use saas_ntier_lab.Prelude.{String, [], ◌∷◌, ◌<>◌}
use saas_ntier_lab.Json.{json_text, json_object, json_list}

-- `payload`
unfoldable pub secret_payload : String → String → String → String
unfolding json_text json_object
secret_payload host tenant_id password = json_object (
    ("username", json_text ("tenant_" <> tenant_id))
    ∷ ("password", json_text password)
    ∷ ("host", json_text host)
    ∷ ("port", "5432")
    ∷ ("dbname", json_text "postgres")
    ∷ ("tenant_id", json_text tenant_id)
    ∷ [])

abbrev json_array : String → String
json_array s = "[" <> s <> "]"

-- `trust`
unfoldable pub trust_policy : String → String → String → String
unfolding json_text json_object
trust_policy oidc_arn oidc_url tenant_id =
    let equals = json_object (
      (oidc_url <> ":sub", json_text ("system:serviceaccount:tenant-" <> tenant_id <> ":test-app"))
      ∷ (oidc_url <> ":aud", json_text "sts.amazonaws.com")
      ∷ []) in
    let statement = json_object (
      ("Effect", json_text "Allow")
      ∷ ("Principal", json_object (("Federated", json_text oidc_arn) ∷ []))
      ∷ ("Action", json_text "sts:AssumeRoleWithWebIdentity")
      ∷ ("Condition", json_object (("StringEquals", equals) ∷ []))
      ∷ []) in
    json_object (("Version", json_text "2012-10-17") ∷ ("Statement", json_array statement) ∷ [])

-- `policy`
unfoldable pub secret_policy : String → String
unfolding json_text json_object json_list
secret_policy secret_arn =
    let statement = json_object (
      ("Sid", json_text "ReadOwnTenantSecret")
      ∷ ("Effect", json_text "Allow")
      ∷ (
        "Action",
        json_list ("secretsmanager:GetSecretValue" ∷ "secretsmanager:DescribeSecret" ∷ []),
      )
      ∷ ("Resource", json_text secret_arn)
      ∷ []) in
    json_object (("Version", json_text "2012-10-17") ∷ ("Statement", json_array statement) ∷ [])

-- ===== src/PgAdmin/Manifests.antt =====
-- The JSON that control-plane/pg_admin.py applies: the service account and the job.
use saas_ntier_lab.Prelude.{String, [], ◌∷◌, ◌<>◌}
use saas_ntier_lab.Json.{json_text, json_list, json_object, json_dict}

abbrev array : String → String
array s = "[" <> s <> "]"

-- `sa`
unfoldable pub service_account : String → String → String
unfolding json_text json_object json_dict
service_account ns migrator =
    let metadata = json_object (
      ("name", json_text "test-app-migrate")
      ∷ ("namespace", json_text ns)
      ∷ ("annotations", json_dict (("eks.amazonaws.com/role-arn", migrator) ∷ []))
      ∷ []) in
    json_object (
      ("apiVersion", json_text "v1")
      ∷ ("kind", json_text "ServiceAccount")
      ∷ ("metadata", metadata)
      ∷ [])

-- An environment variable of the job
abbrev variable : String → String → String
variable name value = json_dict (("name", name) ∷ ("value", value) ∷ [])

-- The container of the job
unfoldable pub container : String → String → String → String → String
unfolding json_text json_object json_list json_dict
container region master role policy = json_object (
    ("name", json_text "drop")
    ∷ ("image", json_text "python:3.11-slim")
    ∷ ("command", json_list ("/bin/sh" ∷ "-c" ∷ []))
    ∷ (
      "args",
      json_list ("pip install -q boto3 psycopg2-binary && python /scripts/drop_role.py" ∷ []),
    )
    ∷ (
      "env",
      array (
          variable "AWS_REGION" region
          <> ", "
          <> variable "MASTER_SECRET" master
          <> ", "
          <> variable "DROP_ROLE" role
          <> ", "
          <> variable "DROP_POLICY" policy),
    )
    ∷ ("volumeMounts", array (json_dict (("name", "scripts") ∷ ("mountPath", "/scripts") ∷ [])))
    ∷ [])

-- `manifest`
unfoldable pub job_manifest : String → String → String → String → String
unfolding json_text json_object json_dict
job_manifest ns job cm box =
    let volume =
      json_object
        (("name", json_text "scripts") ∷ ("configMap", json_dict (("name", cm) ∷ [])) ∷ []) in
    let pod = json_object (
      ("restartPolicy", json_text "Never")
      ∷ ("serviceAccountName", json_text "test-app-migrate")
      ∷ ("containers", array box)
      ∷ ("volumes", array volume)
      ∷ []) in
    let spec = json_object (
      ("backoffLimit", "1")
      ∷ ("ttlSecondsAfterFinished", "300")
      ∷ ("template", json_object (("spec", pod) ∷ []))
      ∷ []) in
    json_object (
      ("apiVersion", json_text "batch/v1")
      ∷ ("kind", json_text "Job")
      ∷ ("metadata", json_dict (("name", job) ∷ ("namespace", ns) ∷ []))
      ∷ ("spec", spec)
      ∷ [])

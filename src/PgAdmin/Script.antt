-- ===== src/PgAdmin/Script.antt =====
-- The program that the job of control-plane/pg_admin.py runs: `_DROP_SCRIPT`. What it does to the
-- database is not modelled.
use saas_ntier_lab.Prelude.{String, List, [], ◌∷◌, ◌<>◌}

abbrev script_lines : List String
script_lines =
    "import json" ∷ "import os" ∷ "import secrets" ∷ "import string" ∷ "import boto3"
    ∷ "import psycopg2" ∷ "from psycopg2 import sql" ∷ ""
    ∷ "sm = boto3.client(\"secretsmanager\", region_name=os.environ[\"AWS_REGION\"])"
    ∷ "master = json.loads(sm.get_secret_value(SecretId=os.environ[\"MASTER_SECRET\"])[\"SecretString\"])"
    ∷ "conn = psycopg2.connect(" ∷ "    host=master[\"host\"],"
    ∷ "    dbname=master.get(\"dbname\", \"postgres\")," ∷ "    user=master[\"username\"],"
    ∷ "    password=master[\"password\"]," ∷ "    port=int(master.get(\"port\", 5432)),"
    ∷ "    sslmode=\"require\"," ∷ ")" ∷ "conn.autocommit = True" ∷ "cur = conn.cursor()"
    ∷ "role = os.environ[\"DROP_ROLE\"]" ∷ "pol = os.environ[\"DROP_POLICY\"]"
    ∷ "cur.execute(sql.SQL(\"DROP POLICY IF EXISTS {} ON sample_requests\").format(sql.Identifier(pol)))"
    ∷ "cur.execute(\"SELECT 1 FROM pg_roles WHERE rolname = %s\", (role,))" ∷ "if cur.fetchone():"
    ∷ "    # Disable login first so a failed DROP still leaves a non-usable role."
    ∷ "    # Rotating the password invalidates any copy of the old secret."
    ∷ "    pw = \"\".join(secrets.choice(string.ascii_letters + string.digits) for _ in range(24))"
    ∷ "    cur.execute(sql.SQL(\"ALTER ROLE {} NOLOGIN\").format(sql.Identifier(role)))"
    ∷ "    cur.execute(sql.SQL(\"ALTER ROLE {} PASSWORD {}\").format(sql.Identifier(role), sql.Literal(pw)))"
    ∷ "    print(json.dumps({\"msg\": \"revoked\", \"role\": role}), flush=True)"
    ∷ "    # Tenant roles only have GRANTs (table owned by master) — revoke then drop."
    ∷ "    cur.execute(sql.SQL(\"REVOKE ALL ON TABLE sample_requests FROM {}\").format(sql.Identifier(role)))"
    ∷ "    cur.execute(sql.SQL(\"REVOKE ALL ON SEQUENCE sample_requests_id_seq FROM {}\").format(sql.Identifier(role)))"
    ∷ "    cur.execute(sql.SQL(\"REVOKE ALL ON SCHEMA public FROM {}\").format(sql.Identifier(role)))"
    ∷ "    cur.execute(sql.SQL(\"REVOKE ALL ON DATABASE postgres FROM {}\").format(sql.Identifier(role)))"
    ∷ "    cur.execute(sql.SQL(\"DROP ROLE {}\").format(sql.Identifier(role)))"
    ∷ "    print(json.dumps({\"msg\": \"dropped\", \"role\": role}), flush=True)" ∷ "else:"
    ∷ "    print(json.dumps({\"msg\": \"role_absent\", \"role\": role}), flush=True)"
    ∷ "cur.close()" ∷ "conn.close()" ∷ []

-- Each line with its line feed
abbrev lined : List String → String
lined [] = ""
lined (l ∷ ls) = l <> "\n" <> lined ls

abbrev pub drop_script : String
drop_script = lined script_lines

-- ===== src/Exec/Outside.antt =====
-- The systems outside the repository, as the procedures of the control plane see them.
use saas_ntier_lab.Prelude.{ℕ, String, Bool, Option, List}
use saas_ntier_lab.Errors.{Result}

-- How `subprocess` ends: the exit code, or the signal that killed
-- it (a negative return code), or `TimeoutExpired`, or the program cannot be started.
pub data Exit : Type 0 where
  exited : ℕ → Exit
  killed : ℕ → Exit
  timed_out : Exit
  not_started : Exit

-- The boto3 calls. The number of `delete_secret` is `RecoveryWindowInDays`, and 0 is
-- `ForceDeleteWithoutRecovery`; the last argument of `create_secret`, `create_role` and of the two that
-- tag is the tenant of the tags.
pub data AwsCall : Type 0 where
  get_caller_identity : AwsCall
  describe_secret : String → AwsCall
  create_secret : String → String → String → AwsCall
  tag_secret : String → String → AwsCall
  list_secrets : Option String → AwsCall
  get_role : String → AwsCall
  update_assume_role_policy : String → String → AwsCall
  create_role : String → String → String → AwsCall
  put_role_policy : String → String → String → AwsCall
  tag_role : String → String → AwsCall
  delete_role_policy : String → String → AwsCall
  delete_role : String → AwsCall
  delete_secret : String → ℕ → AwsCall

-- What a boto3 call answers: the ARN of the secret or the role (the account's number for
-- `get_caller_identity`), whether the secret has a `DeletedDate`, and the names and the next token of a
-- list. A call has no use for the others.
pub record Answer : Type 0 where
  pub arn : String
  pub deleted : Bool
  pub names : List String
  pub next_token : Option String

-- The outcome of a boto3 call: done, or a `ClientError` with its code and message.
pub data AwsReply : Type 0 where
  done : Answer → AwsReply
  client_error : String → String → AwsReply

-- The outputs of the OpenTofu stack that the procedures read; `none` is an output that is not there.
pub record Outputs : Type 0 where
  pub aws_region : Option String
  pub name_prefix : Option String
  pub platform_tenant_id : Option String
  pub migrator_irsa_role_arn : Option String
  pub rds_secret_name : Option String
  pub ingress_mode : Option String
  pub alb_url : Option String
  pub tenant_ids : List String
  pub tenant_irsa_role_arns : List (String × String)
  pub tenant_secret_names : List (String × String)
  pub rds_host : Option String
  pub oidc_provider_arn : Option String
  pub oidc_provider_url : Option String
  pub alb_ingress_group : Option String
  pub public_subnet_cidrs : List String
  pub private_subnet_cidrs : List String
  pub my_ip_cidr : Option String
  pub alb_logs_bucket : Option String
  pub tenant_node_ports : List (String × ℕ)

-- The cluster, AWS, OpenTofu, the clock, files and the environment, with a state of their own. Nothing
-- is assumed of them. `capture` is a subprocess whose output is read, `feed` one that is given an
-- input, `fetch` reads a URL, `which` is `shutil.which`, `choice` is `secrets.choice` of a text, `now` the clock in whole seconds, and `sleep` waits
-- milliseconds.
pub record Platform : Type 1 where
  pub Ext : Type 0
  pub utcnow : Ext → String × Ext
  pub now : Ext → ℕ × Ext
  pub sleep : ℕ → Ext → Ext
  pub subprocess : List String → Ext → Exit × Ext
  pub capture : List String → Ext → (Exit × String) × Ext
  pub feed : List String → String → Ext → Exit × Ext
  pub read_file : String → Ext → Result String × Ext
  pub write_file : String → String → Ext → Result (Unit {0}) × Ext
  pub file_exists : String → Ext → Bool × Ext
  pub fetch : String → Ext → Result String × Ext
  pub which : String → Ext → Option String × Ext
  pub choice : String → Ext → String × Ext
  pub aws : AwsCall → Ext → AwsReply × Ext
  pub tofu_output : Ext → Result Outputs × Ext
  pub environ : String → Option String

-- What a procedure does to the outside, in order.
pub data Call : Type 0 where
  command : List String → Call
  fed : List String → String → Call
  wrote : String → String → Call
  aws : AwsCall → Call

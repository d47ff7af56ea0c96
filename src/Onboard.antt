-- ===== src/Onboard.antt =====
-- helm/test-app/onboard_tenant.py: its commands, and the waits and files around them. The chart's values
-- are in Onboard/Chart, the procedures in Onboard/Install. A bridge,
-- control-plane/onboard_bridge.py, only passes the names on. `chart_dir` is `CHART_DIR`, `guardrails_dir`
-- `GUARDRAILS_CHART`.
pub mod Chart
pub mod Install
pub mod Orders
pub mod Waiting
pub mod Main
pub mod Keeps
use saas_ntier_lab.Prelude.{
  ℕ, ◌+◌, String, Bool, true, false, Option, none, some, List, [], ◌∷◌, ◌++◌, eqb, ◌==◌, ◌<>◌,
  or_else, repr, repr_list, show_nat, strip, not, ◌||◌, rstrip_slash, if◌then◌else◌,
}
use saas_ntier_lab.Errors.{Result, ok, err, Error, Kind}
use saas_ntier_lab.Exec.{
  Platform, Exec, Outputs, Exit, exited, killed, timed_out, not_started, ◌>>=◌, ◌>>◌, pure, raise,
  continue, lift, spawn, capture_of, feed_to, write_text, time_now,
}
use saas_ntier_lab.Exec.Poll.{Polled, found, late, unfinished, poll}
use saas_ntier_lab.Shell.{error_of, missing_program, raise_some}

abbrev pub onboard_error : String → Error
onboard_error text = error_of Kind.onboard_error text

-- `str` of a `CalledProcessError`. (For a signal, Python also names it.)
unfoldable pub called_process : List String → String → Error
unfolding repr_list
called_process cmd how = error_of Kind.called_process ("Command '" <> repr_list cmd <> "' " <> how)

-- What `check_call`, `check_output` and `run(…, check=True)` make of an end.
unfoldable pub check_error : List String → Exit → Option Error
unfolding called_process show_nat missing_program
check_error cmd (exited n) =
    if eqb n 0
    then none
    else some (called_process cmd ("returned non-zero exit status " <> show_nat n <> "."))
check_error cmd (killed n) = some (called_process cmd ("died with signal " <> show_nat n <> "."))
check_error cmd timed_out = some (error_of Kind.timeout_expired "timed out")
check_error cmd not_started = some missing_program

abbrev pub stripped_or : Option Error → String → Result String
stripped_or none out = ok (strip out)
stripped_or (some e) out = err e

-- `os.path.join(directory, name)`
unfoldable pub path_join : String → String → String
unfolding rstrip_slash
path_join directory name =
    if directory == "" || not (rstrip_slash directory == directory)
    then directory <> name
    else directory <> "/" <> name

-- `os.environ.get(name, default)`
abbrev pub or_unset : Option String → String → String
or_unset none default = default
or_unset (some s) default = s

pub empty_output : String → Error
empty_output key =
    onboard_error
      ("tofu output " <> repr key <> " is empty. Is enable_rds true? Apply from env/dev/workload.")

-- `require(outputs, key)`, of the output under the key: a text, a list or an object
unfoldable pub require_text : String → Option String → Result String
unfolding empty_output
require_text key none = err (empty_output key)
require_text key (some s) = if s == "" then err (empty_output key) else ok s

unfoldable pub require_list : {A : Type 0} → String → List A → Result (List A)
unfolding empty_output
require_list key [] = err (empty_output key)
require_list key (x ∷ xs) = ok (x ∷ xs)

-- `(outputs.get("ingress_mode") or "alb_controller") == "alb_controller"`
abbrev pub uses_controller : Outputs → Bool
uses_controller o = or_else o.ingress_mode "alb_controller" == "alb_controller"

abbrev pub nodes_command : List String
nodes_command =
    "kubectl" ∷ "get" ∷ "nodes" ∷ "-o"
    ∷ "jsonpath={.items[0].status.addresses[?(@.type==\"InternalIP\")].address}" ∷ []

abbrev pub hostname_command : String → String → List String
hostname_command ns name =
    "kubectl" ∷ "-n" ∷ ns ∷ "get" ∷ "ingress" ∷ name ∷ "-o"
    ∷ "jsonpath={.status.loadBalancer.ingress[0].hostname}" ∷ []

abbrev pub no_node : String → Error
no_node region = onboard_error (
    "no Ready node. Refresh kubeconfig, wait, retry:\n"
    <> "  aws eks update-kubeconfig --name ntier-dev-eks-cluster --region " <> region <> "\n"
    <> "  kubectl wait --for=condition=Ready nodes --all --timeout=600s")

-- The first of two texts that is not empty, as `a or b`
abbrev pub none_if_empty : String → Option String
none_if_empty s = if s == "" then none else some s

pub text_or_raise : Error → String → Result String
text_or_raise e s = if s == "" then err e else ok s

abbrev pub no_address : String → String → Error
no_address ns name =
    onboard_error ("timed out waiting for Ingress " <> ns <> "/" <> name <> " ADDRESS")

-- `group`
abbrev pub ingress_group : Outputs → String
ingress_group o = or_else o.alb_ingress_group (or_else o.name_prefix "ntier-dev")

module _ (p : Platform) where
  -- `run`
  unfoldable pub run_checked : List String → Exec p (Unit {0})
  unfolding check_error raise_some
  run_checked cmd = do e ← spawn cmd; raise_some p (check_error cmd e)

  -- `run_out`
  unfoldable pub run_out : List String → Exec p String
  unfolding check_error strip
  run_out cmd = do r ← capture_of cmd; lift (stripped_or (check_error cmd r.0) r.1)

  -- `subprocess.run(cmd, input=text, check=True)`
  unfoldable pub run_fed : List String → String → Exec p (Unit {0})
  unfolding check_error raise_some
  run_fed cmd text = do e ← feed_to cmd text; raise_some p (check_error cmd e)

  -- `ensure_platform_guardrails`
  unfoldable pub ensure_platform_guardrails : String → Outputs → Exec p (Unit {0})
  unfolding run_checked
  ensure_platform_guardrails guardrails_dir o = run_checked (
      "helm"
      ∷ "upgrade"
      ∷ "--install"
      ∷ "platform-guardrails"
      ∷ guardrails_dir
      ∷ "-n"
      ∷ "kube-system"
      ∷ "--set"
      ∷ ("groupName=" <> ingress_group o)
      ∷ "--set"
      ∷ "ingressClass=alb"
      ∷ [])

  pub ask_node : String → Exec p String
  unfolding run_out text_or_raise
  ask_node region = do ip ← run_out nodes_command; lift (text_or_raise (no_node region) ip)

  -- `node_ip`
  unfoldable pub node_ip : Exec p String
  unfolding ask_node
  node_ip =
      if or_else (p.environ "NODE_IP") "" == ""
      then ask_node (or_unset (p.environ "AWS_REGION") "us-east-1")
      else pure (or_else (p.environ "NODE_IP") "")

  pub hostname : Error → Polled String → Result String
  hostname e (found host) = ok host
  hostname e late = err e
  hostname e unfinished = err (error_of Kind.out_of_fuel "")

  pub look_hostname : String → String → Exec p (Option String)
  unfolding run_out
  look_hostname ns name = do host ← run_out (hostname_command ns name); pure (none_if_empty host)

  -- `wait_ingress_hostname`, on as much fuel as the timeout has seconds, and one more
  unfoldable pub wait_ingress_hostname : String → String → ℕ → Exec p String
  unfolding hostname look_hostname poll
  wait_ingress_hostname ns name timeout = do
    t ← time_now
    r ← poll 5 (look_hostname ns name) (timeout + 1) (t + timeout)
    lift (hostname (no_address ns name) r)

  -- `write_alb_url`
  unfoldable pub write_alb_url : String → String → Exec p String
  unfolding path_join
  write_alb_url tofu_dir host = do
    write_text (path_join tofu_dir ".alb_url") ("http://" <> host <> "\n")
    pure ("http://" <> host)

-- ===== src/Shell.antt =====
-- `_run` and `_run_ok` of control-plane/lifecycle.py: subprocesses and what their ends mean.
use saas_ntier_lab.Prelude.{
  ℕ, String, Bool, false, ◌||◌, Option, none, some, List, eqb, ◌<>◌, strip, lower, has_part, join,
  show_nat, if◌then◌else◌,
}
use saas_ntier_lab.Errors.{Error, Kind}
use saas_ntier_lab.Exec.{
  Platform, Exec, Exit, exited, killed, timed_out, not_started, ◌>>=◌, pure, raise, spawn,
}

abbrev pub error_of : Kind → String → Error
error_of k text = record { kind = k; message = text }

-- `f"{' '.join(cmd)} exited {exc.returncode} {err}".strip()`; the standard error is not captured.
unfoldable pub exit_text : List String → String → String
unfolding strip join
exit_text cmd code = strip (join " " cmd <> " exited " <> code <> " ")

-- `"timeout" in msg.lower() or exc.returncode in (124, 137)`
unfoldable pub is_timeout : String → ℕ → Bool
unfolding lower has_part
is_timeout text code = has_part (lower text) "timeout" || eqb code 124 || eqb code 137

command_error : List String → String → ℕ → Error
unfolding exit_text is_timeout
command_error cmd shown code =
    let text = exit_text cmd shown in
    if is_timeout text code
    then error_of Kind.kubernetes_retryable text
    else error_of Kind.permanent text

unfoldable pub missing_program : Error
missing_program = error_of Kind.os_error "No such file or directory"

-- What `_run` makes of the way that the command ended.
unfoldable pub run_error : List String → Exit → Option Error
unfolding command_error missing_program show_nat
run_error cmd (exited n) = if eqb n 0 then none else some (command_error cmd (show_nat n) n)
run_error cmd (killed n) = some (command_error cmd ("-" <> show_nat n) 0)
run_error cmd timed_out = some (error_of Kind.kubernetes_retryable "timed out")
run_error cmd not_started = some missing_program

module _ (p : Platform) where
  unfoldable pub raise_some : Option Error → Exec p (Unit {0})
  raise_some none = pure tt
  raise_some (some e) = raise e

  -- `_run`
  unfoldable pub run : List String → Exec p (Unit {0})
  unfolding raise_some
  run cmd = do e ← spawn cmd; raise_some (run_error cmd e)

  -- `subprocess.call(cmd) == 0` of an exit
  unfoldable pub ended_well : Exit → Exec p Bool
  unfolding missing_program
  ended_well (exited n) = pure (eqb n 0)
  ended_well (killed n) = pure false
  ended_well timed_out = raise (error_of Kind.timeout_expired "timed out")
  ended_well not_started = raise missing_program

  -- `_run_ok`
  unfoldable pub run_ok : List String → Exec p Bool
  unfolding ended_well
  run_ok cmd = do e ← spawn cmd; ended_well e

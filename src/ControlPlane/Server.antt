-- ===== src/ControlPlane/Server.antt =====
-- `main` of control-plane/app.py: the server's start, up to `app.run`, with the opening of the registry
-- at the top of the file.
pub mod Laws
use saas_ntier_lab.Prelude.{String, Option, none, some, strip, repr, ◌<>◌}
use saas_ntier_lab.Errors.{Result, ok, err, Error, Kind}
use saas_ntier_lab.Safety.{Number, parse_int, assert_bind_safety}
use saas_ntier_lab.Exec.{Platform, Exec, ◌>>=◌, ◌>>◌, pure, raise, lift, continue}
use saas_ntier_lab.Shell.{error_of}
use saas_ntier_lab.Opening.{open_store}
use saas_ntier_lab.ControlPlane.{Setup, discover_active}

-- The process ends with the exit code 1 and a message, or it serves on a host and a port.
pub data Started : Type 0 where
  refused : String → Started
  serving : String → Number → Started

-- `os.environ.get(name, default)`
abbrev pub variable_or : Option String → String → String
variable_or none default = default
variable_or (some s) default = s

pub port_of : String → Option Number → Result Number
port_of text none =
    err (error_of Kind.value_error ("invalid literal for int() with base 10: " <> repr text))
port_of text (some n) = ok n

module _ (p : Platform) (s : Setup) where
  abbrev pub host_of : String
  host_of = variable_or (p.environ "CP_HOST") "127.0.0.1"

  abbrev pub port_text : String
  port_text = variable_or (p.environ "CP_PORT") "8088"

  -- `except BindUnsafeError`, the only error of `assert_bind_safety`
  pub start_if : Result (Unit {0}) → String → Number → Exec p Started
  start_if (ok a) host port = pure (serving host port)
  start_if (err e) host port = pure (refused e.message)

  unfoldable pub start_server : Exec p Started
  unfolding open_store discover_active port_of parse_int strip assert_bind_safety start_if
  start_server = do
    open_store p s.data_dir s.entries
    _ ← discover_active p s
    port ← lift (port_of port_text (parse_int (strip port_text)))
    start_if (assert_bind_safety (p.environ "CP_API_TOKEN") host_of none) host_of port

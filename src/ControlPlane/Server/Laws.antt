-- ===== src/ControlPlane/Server/Laws.antt =====
-- Who is served by a server that control-plane/app.py has started.
use saas_ntier_lab.Prelude.{String, ◌≡◌, ◌≢◌, refl, sym, false, Option, none, strip}
use saas_ntier_lab.Errors.{Result, ok, err}
use saas_ntier_lab.Safety.{
  Number, parse_int, assert_bind_safety, is_loopback_host, authorize_http, bearer_token,
  configured_token,
}
use saas_ntier_lab.Safety.Laws.{bind-authorized}
use saas_ntier_lab.Exec.{Platform, World, lift}
use saas_ntier_lab.Exec.Returns.{Returns, Returns-rest, Returns-pure}
use saas_ntier_lab.Opening.{open_store}
use saas_ntier_lab.ControlPlane.{Setup, discover_active}
use saas_ntier_lab.ControlPlane.Server.{
  Started, refused, serving, start_if, start_server, port_of, port_text, host_of,
}

module _ (p : Platform) (s : Setup) where
  -- A server that serves has passed the guard for its host.
  IsGuarded : Started → World p → Type 0
  IsGuarded (refused message) w = Unit
  IsGuarded (serving host port) w = assert_bind_safety (p.environ "CP_API_TOKEN") host none ≡ ok tt

  if-Returns :
      (r : Result (Unit {0})) (host : String) (port : Number)
      → r ≡ assert_bind_safety (p.environ "CP_API_TOKEN") host none
      → Returns IsGuarded (start_if p s r host port)
  unfolding start_if IsGuarded
  if-Returns (ok a) host port q = Returns-pure (serving host port) (λ w. sym q)
  if-Returns (err e) host port q = Returns-pure (refused e.message) (λ w. tt)

  start-Returns : Returns IsGuarded (start_server p s)
  unfolding start_server
  start-Returns = Returns-rest (open_store p s.data_dir s.entries) _ (λ _.
      Returns-rest (discover_active p s) _ (λ o.
        Returns-rest (lift (port_of (port_text p s) (parse_int (strip (port_text p s))))) _ (λ port.
          if-Returns (assert_bind_safety (p.environ "CP_API_TOKEN") (host_of p s) none)
            (host_of p s) port refl)))

  -- When the server has started on a host that is not the loopback interface, a request to a path other
  -- than /health passes only if its bearer token is the configured one.
  pub start_server_authorized :
      (w : World p) (host path : String) (port : Number) (authorization : Option String)
      → (start_server p s w).0 ≡ ok (serving host port)
      → is_loopback_host host ≡ false
      → path ≢ "/health"
      → authorize_http path authorization (configured_token (p.environ "CP_API_TOKEN")) ≡ ok none
      → bearer_token authorization ≡ configured_token (p.environ "CP_API_TOKEN")
  unfolding IsGuarded
  start_server_authorized w host path port authorization started far other passed =
      bind-authorized (p.environ "CP_API_TOKEN") host path authorization
        (start-Returns.at w (serving host port) started) far other passed

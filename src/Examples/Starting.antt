-- ===== src/Examples/Starting.antt =====
-- A server that starts on all interfaces with a token, and the deletion of a tenant of OpenTofu.
use saas_ntier_lab.Prelude.{
  String, ◌≡◌, ◌==◌, refl, false, Option, none, some, [], ◌∷◌, if◌then◌else◌,
}
use saas_ntier_lab.Errors.{ok}
use saas_ntier_lab.Safety.{is_loopback_host, authorize_http, bearer_token, configured_token}
use saas_ntier_lab.Store
use saas_ntier_lab.Store.{Row, Owner}
use saas_ntier_lab.Exec.{Platform, World}
use saas_ntier_lab.Exec.Keeps.{only}
use saas_ntier_lab.Lifecycle.{delete_tenant, owned_of}
use saas_ntier_lab.Lifecycle.Dropping.{dropping}
use saas_ntier_lab.Lifecycle.Foreign.{is_identity_removal, is_owner, delete_spares_identity}
use saas_ntier_lab.ControlPlane.Server.{serving, start_server}
use saas_ntier_lab.ControlPlane.Server.Laws.{start_server_authorized}
use saas_ntier_lab.Examples.{calm, acme, rows, acme-IsTenantId}
use saas_ntier_lab.Examples.Commands.{lab, no_json}

abbrev settings : String → Option String
settings name =
    if name == "CP_HOST"
    then some "0.0.0.0"
    else if name == "CP_API_TOKEN"
    then some "s3cret"
    else none

abbrev open_lab : Platform
open_lab = record calm { environ = settings }

abbrev before : World open_lab
before = record { table = rows; ext = 0; log = [] }

starts : (start_server open_lab lab before).0 ≡ ok (serving "0.0.0.0" (false, 8088))
unfolding start_server
starts = refl

abbrev header : Option String
header = some "Bearer s3cret"

far : is_loopback_host "0.0.0.0" ≡ false
unfolding is_loopback_host
far = refl

passes : authorize_http "/tenants" header (configured_token (some "s3cret")) ≡ ok none
unfolding authorize_http configured_token
passes = refl

start_server_authorized_example : bearer_token header ≡ configured_token (some "s3cret")
start_server_authorized_example =
    start_server_authorized open_lab lab before "0.0.0.0" "/tenants" (false, 8088) header starts far
      (λ h. cc) passes

abbrev foreign : World calm
foreign = record { table = record acme { owned_by = some Owner.opentofu } ∷ []; ext = 0; log = [] }

not_owned : is_owner (owned_of (Store.get foreign.table "acme")).owned_by ≡ false
unfolding Store.get
not_owned = refl

delete_spares_identity_example :
    only is_identity_removal (delete_tenant calm (dropping calm no_json "tmp") "acme" foreign).1.log
    ≡ []
delete_spares_identity_example =
    delete_spares_identity calm no_json "tmp" "acme" foreign acme-IsTenantId not_owned

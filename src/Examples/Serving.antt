-- ===== src/Examples/Serving.antt =====
-- Requests to the HTTP API on a platform where every call succeeds.
use saas_ntier_lab.Prelude.{String, ◌≡◌, refl, true, false, none, some, List, [], ◌∷◌, strip}
use saas_ntier_lab.Errors.{ok}
use saas_ntier_lab.Store.{Row, Status, Desired}
use saas_ntier_lab.Store
use saas_ntier_lab.Exec.{Exec, pure}
use saas_ntier_lab.Safety.{bearer_token}
use saas_ntier_lab.App.{Body, Job, Server, respond, in_flight, public}
use saas_ntier_lab.App.Handlers.{
  NewTenant, create_tenant, remove, require_cp_auth, create, remove_one, serve,
}
use saas_ntier_lab.App.Handlers.Jobs.{OneEach, start, next, request, one_job_each}
use saas_ntier_lab.App.Handlers.Requests.{
  unauthorized_keeps, create_tenant_accepts, create_tenant_refuses, remove-in_flight,
}
use saas_ntier_lab.Examples.{calm, world, acme, acme-IsTenantId, initech-IsTenantId}
use saas_ntier_lab.Examples.Reconciling.{handlers, up, succeeds}

abbrev idle : Server calm
idle = record { world = world; jobs = [] }

-- `acme` is in the registry with the status ACTIVE, and a provisioning of it is in flight.
abbrev busy : Server calm
busy = record { world = world; jobs = ("acme", Job.provisioning "standard" false true) ∷ [] }

abbrev new : String → NewTenant
new k = record { id = k; tier = none; ensure_identity = none; ensure_infra = none }

abbrev no_namespaces : Exec calm (List String)
no_namespaces = pure []

abbrev after_create : Server calm
after_create = (serve (handlers up succeeds) no_namespaces (create (new "initech")) idle).1

one_job_each_example :
    OneEach (serve (handlers up succeeds) no_namespaces (remove_one "initech") after_create).1.jobs
one_job_each_example =
    one_job_each (handlers up succeeds) no_namespaces
      (next (next start (request (create (new "initech")) idle))
        (request (remove_one "initech") after_create))
      refl

unauthorized_keeps_example :
    (require_cp_auth "/tenants/acme" none "s3cret" (remove "acme") idle).1 ≡ idle
unfolding strip bearer_token
unauthorized_keeps_example =
    unauthorized_keeps "/tenants/acme" none "s3cret" (remove "acme") idle (λ h. cc) (λ h. cc)
      (λ h. cc)

create_tenant_accepts_example :
    (in_flight "initech" (create_tenant (new "initech") idle).1.jobs ≡ true)
    × ((r : Row) × (Store.get (create_tenant (new "initech") idle).1.world.table "initech" ≡ some r)
        × ((create_tenant (new "initech") idle).0 ≡ ok (respond 202 (Body.tenant (public r))))
        × (r.status ≡ Status.provisioning)
        × (r.desired_status ≡ Desired.active))
unfolding strip Store.get
create_tenant_accepts_example = create_tenant_accepts (new "initech") idle initech-IsTenantId refl

create_tenant_refuses_example :
    ((create_tenant (new "acme") idle).1 ≡ idle)
    × ((b : Body) × ((create_tenant (new "acme") idle).0 ≡ ok (respond 200 b)))
unfolding strip Store.get
create_tenant_refuses_example = create_tenant_refuses (new "acme") idle 200 acme-IsTenantId refl

remove-in_flight_example :
    ((remove "acme" busy).1.jobs ≡ busy.jobs)
    × ((r : Row) × (Store.get (remove "acme" busy).1.world.table "acme" ≡ some r)
        × ((remove "acme" busy).0 ≡ ok (respond 202 (Body.tenant (public r))))
        × (r.status ≡ Status.deleting)
        × (r.desired_status ≡ Desired.gone))
unfolding Store.get
remove-in_flight_example = remove-in_flight "acme" busy acme acme-IsTenantId refl refl refl

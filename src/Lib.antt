-- ===== src/Lib.antt =====
-- The tenant control plane of the SaaS n-tier lab: a registry of tenants, a reconciler that moves the
-- infrastructure of each tenant to its desired status, and an HTTP API and a command line in front of
-- both.
--
-- The parts, and the files that model them:
--   control-plane/ids.py             Ids, Ids/Grammar        the tenant-id rule
--   control-plane/errors.py          Errors, Errors/Retry    error classes, with_retry
--   control-plane/safety.py          Safety, Safety/Laws     bind guard, bearer token, recovery window
--   control-plane/store.py           Store, Store/Rows, ...  the registry: get, list, upsert, delete; Opening and Store/Legacy: the import
--   control-plane/observe.py         Observe, Observe/Kubectl  Observed and its tests, the observer
--   control-plane/contract_check.py  Contract                the gate before ACTIVE
--   control-plane/lifecycle.py       Shell, Lifecycle        _run, suspend_tenant, delete_tenant; Lifecycle/Resume: resume_tenant
--   control-plane/aws_identity.py    AwsIdentity, Identity   removing and making the role and the secret, identity maps
--   control-plane/pg_admin.py        PgAdmin                 the job that drops a database role
--   control-plane/infra.py           Infra, Infra/Tfvars     the ids in the OpenTofu variables, tofu apply
--   control-plane/provisioner.py     Provision               provision; ControlPlane: discover_active
--   control-plane/adopt.py           Adopt                   adopt_tenants
--   helm/test-app/onboard_tenant.py  Onboard, .../Install    the commands and waits, onboard, onboard_tenant; Onboard/Main: main
--   control-plane/reconcile.py       Reconcile, .../Sweep    plan_action, reconcile_one, reconcile_all
--   control-plane/app.py             App, App/Handlers       the HTTP handlers, the jobs in flight
--   control-plane/app.py             ControlPlane, .../Jobs  the jobs' functions; ControlPlane/Server: main
--   control-plane/cli.py             Cli                     the commands
--   helm/test-app/lab_auth.py        LabAuth                 which lab user a pod serves
--
-- How they fit together. Exec is the state on which the procedures act: the registry's table, a log of
-- the calls made to the outside, and the state of a Platform, which stands for the cluster, AWS,
-- OpenTofu, the clock and the environment. A procedure is a function of that state to a result and the
-- state that it leaves, whether it returns or raises; a try is `catch`. Nothing is assumed of a Platform,
-- but of its clock where a theorem says so: a theorem on a procedure holds for all the ways in which
-- commands and calls may end. A transaction
-- of the registry is a function on the table that leaves it alone when it raises, as a rollback does.
-- Reconciling takes its observer, its contract and its four actions as a record Handlers, as the
-- function in the code takes them as arguments; deleting takes the dropping of the database role, which
-- PgAdmin models, as an argument (Lifecycle/Dropping gives it). Provisioning makes the tenant's identity (Identity, or Infra) and
-- installs its release (Onboard/Install), between writes of the registry. Json is Python's json.dumps.
--
-- The HTTP handlers act on that state together with the jobs in flight; App/Handlers/Jobs interleaves
-- requests with the work of the jobs' threads, which may change the state in any way, and with their ends.
--
-- ControlPlane puts the parts together: a Setup has the directories and what json.loads makes of the texts
-- that are read, `defaults` is the Handlers of the functions that reconciling calls by default, and
-- ControlPlane/Jobs has the functions of the jobs. Cli runs the commands on the same state, and opens the
-- registry first, as each run of the command line does. In ControlPlane/Jobs/Turns requests and whole jobs
-- follow on each other; a job's transactions and those of a request that is served meanwhile are not
-- interleaved there.
--
-- A tenant's statuses are data types with a constructor `other` for texts outside their lists. Numbers
-- are natural numbers. Loops over a list follow the list; the loops of attempts follow the number of
-- attempts that are left, which is the number that the code is given, so they need no further fuel. The
-- loops that wait until a deadline (Exec/Poll) run on as many rounds as the timeout has seconds, and one
-- more: on a clock that does not turn back, each round but the last sleeps for a second at least. The clock
-- is read in whole seconds, and a sleep is in milliseconds. Listing secrets (Adopt) runs on as many pages
-- as it is given, since AWS says when the list ends.
--
-- A theorem on a procedure that is found in a folder below the procedure's file is named for what it
-- proves. Exec/Keeps has what a procedure keeps (an invariant of the registry, the calls made so far),
-- Exec/Ends how it ends, Exec/Returns what holds when it returns; the proofs on procedures follow their
-- text by these rules.
--
-- Not modelled: printing, but for what a command of the command line shows; argparse; SQLite's own
-- failures and the settings of its connections; what Flask does once the server has started;
-- `_wait` of control-plane/cli.py, which nothing calls; what the job's program does to the
-- database; the Helm charts, the OpenTofu stack and the tests. kubectl's and OpenTofu's JSON is
-- decoded outside the model. A text is a list of code points, and `lower` folds the ASCII letters.
pub mod Prelude
pub mod Ids
pub mod Errors
pub mod Store
pub mod Exec
pub mod Json
pub mod Safety
pub mod AwsIdentity
pub mod Shell
pub mod Lifecycle
pub mod Onboard
pub mod Identity
pub mod Infra
pub mod Provision
pub mod PgAdmin
pub mod Adopt
pub mod Observe
pub mod Contract
pub mod Reconcile
pub mod App
pub mod LabAuth
pub mod Opening
pub mod ControlPlane
pub mod Cli
pub mod Examples

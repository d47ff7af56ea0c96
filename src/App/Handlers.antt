-- ===== src/App/Handlers.antt =====
-- The handlers of control-plane/app.py. An exception that no error handler takes is an error of the
-- result. `resume_tenant`, which a job runs, is not called by a handler.
pub mod Jobs
pub mod Keeps
pub mod Requests
use saas_ntier_lab.Prelude.{
  ℕ, String, Bool, true, false, ◌&&◌, not, Option, none, some, List, [], ◌∷◌, map, strip, or_else,
  ◌<>◌, if◌then◌else◌,
}
use saas_ntier_lab.Errors.{Result, ok, err, Error, Kind}
use saas_ntier_lab.Ids.{validate_tenant_id}
use saas_ntier_lab.Store.{Row, Fields, Status, Desired, no_fields, status_text}
use saas_ntier_lab.Store
use saas_ntier_lab.Exec.{Platform, World, Exec, store_upsert}
use saas_ntier_lab.Safety.{Rejection, authorize_http}
use saas_ntier_lab.Lifecycle.{suspend_tenant}
use saas_ntier_lab.Reconcile.{Handlers, reconcile_one}
use saas_ntier_lab.Reconcile.Sweep.{reconcile_all}
use saas_ntier_lab.App.{
  Public, public, public_or, Body, Response, respond, Json, flag, Job, Server, job_id, in_flight,
  cp_error, start_job,
}

-- The JSON body of POST /tenants: `str(body.get("id", ""))`, the text of `body.get("tier")`, and the
-- two flags.
pub record NewTenant : Type 0 where
  pub id : String
  pub tier : Option String
  pub ensure_identity : Option Json
  pub ensure_infra : Option Json

abbrev pub Served : Platform → Type 0
Served p = Server p → Result Response × Server p

-- `str(body.get("tier") or "standard").strip() or "standard"`
unfoldable pub tier_of : Option String → String
unfolding strip
tier_of tier = or_else (some (strip (or_else tier "standard"))) "standard"

abbrev pub new_fields : String → Fields
new_fields tier = record no_fields {
  desired_status = some Desired.active;
  status = some Status.provisioning;
  tier = some (some tier);
  error = some none;
}

abbrev pub deleting_fields : Fields
deleting_fields = record no_fields {
  desired_status = some Desired.gone;
  status = some Status.deleting;
  error = some none;
}

-- The response of `create_tenant` that the status of the existing row decides, if it does.
abbrev pub refuse_create : Row → Option Response
refuse_create r = elim r.status [
  | Status.active ↦ some (respond 200 (Body.tenant (public r)))
  | Status.provisioning ↦ some (respond 202 (Body.tenant (public r)))
  | Status.deleting ↦ some (respond 202 (Body.tenant (public r)))
  | Status.delete_failed ↦ some (
      respond 409 (
        Body.failure "delete_failed" "retry DELETE /tenants/{id} until GONE; do not recreate yet"
          (some r.id)))
  | Status.suspended ↦
      some (respond 409 (Body.failure "suspended" "POST /tenants/{id}/resume" none))
  | _ ↦ none
]

abbrev pub refuse_existing : Option Row → Option Response
refuse_existing none = none
refuse_existing (some r) = refuse_create r

pub shown_tenant : String → Option Row → Result Response
shown_tenant tenant_id none = ok (respond 404 (Body.not_found tenant_id))
shown_tenant tenant_id (some r) = ok (respond 200 (Body.tenant (public r)))

abbrev is_onboard : Kind → Bool
is_onboard Kind.onboard_error = true
is_onboard _ = false

pub suspended : Result Row → Result Response
unfolding cp_error
suspended (ok r) = ok (respond 200 (Body.tenant (public r)))
suspended (err e) =
    if is_onboard e.kind
    then ok (respond 400 (Body.failure "suspend_failed" e.message none))
    else cp_error e

abbrev pub is_deleting : Status → Bool
is_deleting Status.deleting = true
is_deleting _ = false

module _ {p : Platform} where
  -- An exception that leaves a handler.
  abbrev pub failed : Error → Served p
  failed e s = (cp_error e, s)

  abbrev pub go_on : {A : Type 0} → Result A → (A → Served p) → Served p
  go_on (ok a) f = f a
  go_on (err e) f = failed e

  -- A procedure within a handler; what it raises leaves the handler.
  pub then_serve : {A : Type 0} → Exec p A → (A → Served p) → Served p
  then_serve m f s = go_on (m s.world).0 f (record s { world = (m s.world).1 })

  -- A tenant id from the path that is not valid raises.
  pub with_id : String → (String → Served p) → Served p
  unfolding validate_tenant_id
  with_id tenant_id f = go_on (validate_tenant_id (some tenant_id)) f

  pub started : String → Status → Job → Served p
  unfolding start_job
  started tenant_id status job s = let (r, s') = start_job tenant_id status job s in (ok r, s')

  -- `create_tenant` from the lookup on
  pub create_from : NewTenant → String → Option Response → Served p
  unfolding flag tier_of then_serve started
  create_from body tenant_id (some r) s = (ok r, s)
  create_from body tenant_id none s =
      let infra = flag body.ensure_infra false in
      let identity = flag body.ensure_identity true && not infra in
      then_serve (store_upsert tenant_id (new_fields (tier_of body.tier)))
        (λ _.
          started tenant_id Status.provisioning
            (Job.provisioning (tier_of body.tier) infra identity))
        s

  pub create_valid : NewTenant → Result String → Served p
  unfolding create_from
  create_valid body (err e) s = (ok (respond 400 (Body.failure "invalid_id" e.message none)), s)
  create_valid body (ok k) s = create_from body k (refuse_existing (Store.get s.world.table k)) s

  -- POST /tenants
  unfoldable pub create_tenant : NewTenant → Served p
  unfolding create_valid validate_tenant_id strip
  create_tenant body s = create_valid body (validate_tenant_id (some (strip body.id))) s

  -- GET /tenants and GET /tenants/<tenant_id>
  unfoldable pub list_tenants : Served p
  list_tenants s = (ok (respond 200 (Body.tenants (map public (Store.list s.world.table)))), s)

  unfoldable pub get_tenant : String → Served p
  unfolding with_id shown_tenant
  get_tenant tenant_id = with_id tenant_id (λ k s. (shown_tenant k (Store.get s.world.table k), s))

  -- POST /tenants/<tenant_id>/suspend
  unfoldable pub suspend : String → Served p
  unfolding with_id suspended suspend_tenant
  suspend tenant_id =
      with_id tenant_id
        (λ k s. let (r, w) = suspend_tenant p k s.world in (suspended r, record s { world = w }))

  pub resume_found : String → Option Row → Served p
  unfolding started
  resume_found tenant_id none s = (ok (respond 404 (Body.not_found tenant_id)), s)
  resume_found tenant_id (some r) s = elim r.status [
    | Status.active ↦ (ok (respond 200 (Body.tenant (public r))), s)
    | Status.suspended ↦ started tenant_id Status.suspended Job.resuming s
    | _ ↦ (
      ok (respond 409 (Body.failure "invalid_state" ("status=" <> status_text r.status) none)),
      s,
    )
  ]

  -- POST /tenants/<tenant_id>/resume
  unfoldable pub resume : String → Served p
  unfolding with_id resume_found
  resume tenant_id = with_id tenant_id (λ k s. resume_found k (Store.get s.world.table k) s)

  -- The write and the job of `remove`
  pub mark_and_start : String → Served p
  unfolding then_serve started
  mark_and_start tenant_id =
      then_serve (store_upsert tenant_id deleting_fields)
        (λ _. started tenant_id Status.deleting Job.deleting)

  pub remove_found : String → Option Row → Served p
  unfolding mark_and_start then_serve
  remove_found tenant_id none s =
      then_serve (store_upsert tenant_id deleting_fields) (λ _. mark_and_start tenant_id) s
  remove_found tenant_id (some r) s =
      if is_deleting r.status && in_flight tenant_id s.jobs
      then (ok (respond 202 (Body.tenant (public r))), s)
      else mark_and_start tenant_id s

  -- DELETE /tenants/<tenant_id>
  unfoldable pub remove : String → Served p
  unfolding with_id remove_found
  remove tenant_id = with_id tenant_id (λ k s. remove_found k (Store.get s.world.table k) s)

  -- POST /reconcile and POST /tenants/<tenant_id>/reconcile
  unfoldable pub reconcile : Handlers p → Exec p (List String) → Served p
  unfolding then_serve reconcile_all
  reconcile h ns = then_serve (reconcile_all h ns) (λ o s. (ok (respond 200 (Body.swept o)), s))

  unfoldable pub reconcile_tenant : Handlers p → String → Served p
  unfolding with_id then_serve reconcile_one
  reconcile_tenant h tenant_id =
      with_id tenant_id
        (λ k. then_serve (reconcile_one h k) (λ o s. (ok (respond 200 (Body.reconciled o)), s)))

  -- `require_cp_auth` in front of a handler
  pub decided : Result (Option Rejection) → Served p → Served p
  decided (ok none) handler s = handler s
  decided (ok (some r)) handler s = (ok (respond r.status (Body.failure r.error r.message none)), s)
  decided (err e) handler s = (cp_error e, s)

  unfoldable pub require_cp_auth : String → Option String → String → Served p → Served p
  unfolding decided authorize_http
  require_cp_auth path authorization token handler =
      decided (authorize_http path authorization token) handler

-- A request that a route takes, with the tenant id of its path.
pub data Request : Type 0 where
  list_all reconcile_every : Request
  get_one suspend_one resume_one remove_one reconcile_single : String → Request
  create : NewTenant → Request

module _ {p : Platform} (h : Handlers p) (ns : Exec p (List String)) where
  unfoldable pub serve : Request → Served p
  unfolding list_tenants reconcile get_tenant suspend resume remove reconcile_tenant create_tenant
  serve list_all = list_tenants
  serve reconcile_every = reconcile h ns
  serve (get_one k) = get_tenant k
  serve (suspend_one k) = suspend k
  serve (resume_one k) = resume k
  serve (remove_one k) = remove k
  serve (reconcile_single k) = reconcile_tenant h k
  serve (create body) = create_tenant body

-- ===== src/App/Handlers/Requests.antt =====
-- What the requests of control-plane/app.py write and start.
use saas_ntier_lab.Prelude.{
  ℕ, ap, ◌∙◌, String, ◌≡◌, ◌≢◌, refl, true, false, Option, none, some, List, arith, strip, eq_refl,
  Bool-cases, inl, inr,
}
use saas_ntier_lab.Errors.{Result, ok, err}
use saas_ntier_lab.Ids.Grammar.{IsTenantId, validate_of_IsTenantId}
use saas_ntier_lab.Store.{Row, Fields, Status, Desired, fresh, merge, desired_or_inferred}
use saas_ntier_lab.Store
use saas_ntier_lab.Store.Versions.{stored}
use saas_ntier_lab.Exec.{Platform, Exec, store_upsert}
use saas_ntier_lab.Exec.Ends.{upsert-stores}
use saas_ntier_lab.Safety.{Rejection, authorize_http, bearer_token}
use saas_ntier_lab.Safety.Laws.{authorize-pass_iff}
use saas_ntier_lab.App.{Response, Job, Server, Body, in_flight, start_job, respond, public}
use saas_ntier_lab.App.Handlers.{
  Served, NewTenant, create_from, create_valid, create_tenant, refuse_existing, tier_of, new_fields,
  deleting_fields, is_deleting, mark_and_start, remove, remove_found, with_id, then_serve, started,
  decided, require_cp_auth,
}

decided_keeps :
    {p : Platform} (r : Result (Option Rejection)) (handler : Served p) (s : Server p)
    → r ≢ ok none
    → (decided r handler s).1 ≡ s
unfolding decided
decided_keeps (ok none) handler s n = absurd (n refl)
decided_keeps (ok (some r)) handler s n = refl
decided_keeps (err e) handler s n = refl

-- Where a token is configured, a request to a path other than /health that does not carry it as its
-- bearer token changes nothing, whatever its handler would do: no row, no job and no call.
pub unauthorized_keeps :
    {p : Platform} (path : String) (authorization : Option String) (token : String)
    (handler : Served p) (s : Server p)
    → path ≢ "/health"
    → strip token ≢ ""
    → bearer_token authorization ≢ strip token
    → (require_cp_auth path authorization token handler s).1 ≡ s
unfolding require_cp_auth
unauthorized_keeps path authorization token handler s other secret wrong =
    decided_keeps (authorize_http path authorization token) handler s (λ q.
      elim ((authorize-pass_iff path authorization token).0 q) [
        | inl a ↦ other a
        | inr (inl b) ↦ secret b
        | inr (inr (c, d)) ↦ wrong c
      ])

-- The columns of a row that a request has accepted.
created :
    (now k tier : String) (o : Option Row) (r : Row)
    → r ≡ stored now k (new_fields tier) o
    → (r.status ≡ Status.provisioning) × (r.desired_status ≡ Desired.active)
unfolding fresh merge desired_or_inferred
created now k tier none r q = ground arith
created now k tier (some old) r q = ground arith

doomed :
    (now k : String) (o : Option Row) (r : Row)
    → r ≡ stored now k deleting_fields o
    → (r.status ≡ Status.deleting) × (r.desired_status ≡ Desired.gone)
unfolding fresh merge desired_or_inferred
doomed now k none r q = ground arith
doomed now k (some old) r q = ground arith

-- What a write and a start of a job leave, given the row that the write has stored.
record IsStarted {p : Platform} (k : String) (r : Row) (before : List (String × Job))
    (t : Result Response × Server p) : Type 0 where
  runs : in_flight k t.1.jobs ≡ true
  found : Store.get t.1.world.table k ≡ some r
  answer : t.0 ≡ ok (respond 202 (Body.tenant (public r)))
  at_most_one : in_flight k before ≡ true → t.1.jobs ≡ before

started_lem :
    {p : Platform} (k : String) (status : Status) (job : Job) (r : Row) (s : Server p)
    → Store.get s.world.table k ≡ some r
    → IsStarted k r s.jobs (started k status job s)
unfolding started start_job
started_lem k status job r s found = elim (Bool-cases (in_flight k s.jobs)) [
  | inl t ↦ record {
    runs = rw t t;
    found = rw t found;
    answer = rw t (rw found);
    at_most_one = λ u. rw t;
  }
  | inr f ↦ record {
    runs = rw f (rw (eq_refl k));
    found = rw f found;
    answer = rw f (rw found);
    at_most_one = λ u. cc;
  }
]

then_started :
    {p : Platform} (m : Exec p Row) (k : String) (status : Status) (job : Job) (r : Row)
    (s : Server p)
    → (m s.world).0 ≡ ok r
    → Store.get (m s.world).1.table k ≡ some r
    → IsStarted k r s.jobs (then_serve m (λ _. started k status job) s)
unfolding then_serve
then_started m k status job r s accepted found =
    rw accepted (started_lem k status job r (record s { world = (m s.world).1 }) found)

-- What POST /tenants answers for a tenant that is there, by its status; `none` where it provisions.
abbrev pub settled_code : Status → Option ℕ
settled_code Status.active = some 200
settled_code Status.provisioning = some 202
settled_code Status.deleting = some 202
settled_code Status.delete_failed = some 409
settled_code Status.suspended = some 409
settled_code _ = none

abbrev pub settled : Option Row → Option ℕ
settled none = none
settled (some r) = settled_code r.status

free_of_settled : (o : Option Row) → settled o ≡ none → refuse_existing o ≡ none
free_of_settled none h = refl
free_of_settled (some r) h = by r.status refl
  where
    by : (st : Status) → r.status ≡ st → refuse_existing (some r) ≡ none
    by Status.active q = cc
    by Status.provisioning q = cc
    by Status.deleting q = cc
    by Status.delete_failed q = cc
    by Status.suspended q = cc
    by Status.failed q = rw q
    by Status.drift q = rw q
    by (Status.other t) q = rw q

taken_of_settled :
    (o : Option Row) (c : ℕ)
    → settled o ≡ some c
    → (b : Body) × (refuse_existing o ≡ some (respond c b))
taken_of_settled none c h = cc
taken_of_settled (some r) c h = by r.status refl
  where
    answer :
        (n : ℕ) (b : Body)
        → refuse_existing (some r) ≡ some (respond n b)
        → settled (some r) ≡ some n
        → (b : Body) × (refuse_existing (some r) ≡ some (respond c b))
    answer n b q k = let same : n ≡ c = cc in (b, q ∙ ap (λ m. some (respond m b)) same)

    by :
        (st : Status) → r.status ≡ st → (b : Body) × (refuse_existing (some r) ≡ some (respond c b))
    by Status.active q = answer 200 (Body.tenant (public r)) (rw q) (rw q)
    by Status.provisioning q = answer 202 (Body.tenant (public r)) (rw q) (rw q)
    by Status.deleting q = answer 202 (Body.tenant (public r)) (rw q) (rw q)
    by Status.delete_failed q =
        answer 409
          (Body.failure "delete_failed" "retry DELETE /tenants/{id} until GONE; do not recreate yet"
            (some r.id))
          (rw q) (rw q)
    by Status.suspended q =
        answer 409 (Body.failure "suspended" "POST /tenants/{id}/resume" none) (rw q) (rw q)
    by Status.failed q = cc
    by Status.drift q = cc
    by (Status.other t) q = cc

module _ {p : Platform} (body : NewTenant) (s : Server p) where
  -- POST /tenants with a valid id, of a tenant that is not in the registry or whose status is FAILED,
  -- DRIFT or none of the known ones, answers 202; afterwards the row says PROVISIONING, and that ACTIVE
  -- is desired, and a job of the tenant is in flight.
  pub create_tenant_accepts :
      IsTenantId (strip body.id)
      → settled (Store.get s.world.table (strip body.id)) ≡ none
      → (in_flight (strip body.id) (create_tenant body s).1.jobs ≡ true)
        × ((r : Row) × (Store.get (create_tenant body s).1.world.table (strip body.id) ≡ some r)
            × ((create_tenant body s).0 ≡ ok (respond 202 (Body.tenant (public r))))
            × (r.status ≡ Status.provisioning)
            × (r.desired_status ≡ Desired.active))
  unfolding create_tenant create_valid
  create_tenant_accepts v open_to =
      let k : String = strip body.id in
      let f : Fields = new_fields (tier_of body.tier) in
      let (r, accepted, is, found) = upsert-stores k f Desired.active s.world v refl refl in
      let (a, b) =
        created (p.utcnow s.world.ext).0 k (tier_of body.tier) (Store.get s.world.table k) r is in
      let free = free_of_settled (Store.get s.world.table k) open_to in
      rw (validate_of_IsTenantId k v) (
        rw free (
          let go : IsStarted k r s.jobs (create_from body k none s) =
            unfold create_from in
            then_started (store_upsert k f) k Status.provisioning _ r s accepted found in
          (go.runs, (r, go.found, go.answer, a, b))))

  -- POST /tenants with a valid id changes nothing when the tenant's status is ACTIVE, PROVISIONING,
  -- DELETING, DELETE_FAILED or SUSPENDED; the answer is 200 for ACTIVE, 202 for PROVISIONING and
  -- DELETING, and 409 for DELETE_FAILED and SUSPENDED.
  pub create_tenant_refuses :
      (c : ℕ)
      → IsTenantId (strip body.id)
      → settled (Store.get s.world.table (strip body.id)) ≡ some c
      → ((create_tenant body s).1 ≡ s)
        × ((b : Body) × ((create_tenant body s).0 ≡ ok (respond c b)))
  unfolding create_tenant create_valid create_from
  create_tenant_refuses c v busy =
      let (b, taken) = taken_of_settled (Store.get s.world.table (strip body.id)) c busy in
      rw (validate_of_IsTenantId (strip body.id) v) (rw taken (refl, (b, refl)))

-- DELETE /tenants/<id> while another job of the tenant, a provisioning for one, is in flight, and the
-- row does not say DELETING: the answer is 202, and the row says DELETING and that GONE is desired, but
-- no deletion is started; the jobs are as before.
pub remove-in_flight :
    {p : Platform} (k : String) (s : Server p) (old : Row)
    → IsTenantId k
    → Store.get s.world.table k ≡ some old
    → is_deleting old.status ≡ false
    → in_flight k s.jobs ≡ true
    → ((remove k s).1.jobs ≡ s.jobs)
      × ((r : Row) × (Store.get (remove k s).1.world.table k ≡ some r)
          × ((remove k s).0 ≡ ok (respond 202 (Body.tenant (public r))))
          × (r.status ≡ Status.deleting)
          × (r.desired_status ≡ Desired.gone))
unfolding remove with_id remove_found
remove-in_flight {p} k s old v found live busy =
    let (r, accepted, is, now_found) =
      upsert-stores k deleting_fields Desired.gone s.world v refl refl in
    let (a, b) = doomed (p.utcnow s.world.ext).0 k (Store.get s.world.table k) r is in
    let go : IsStarted k r s.jobs (mark_and_start k s) =
      unfold mark_and_start in
      then_started (store_upsert k deleting_fields) k Status.deleting Job.deleting r s accepted
        now_found in
    rw (validate_of_IsTenantId k v)
      (rw found (rw live (go.at_most_one busy, (r, go.found, go.answer, a, b))))

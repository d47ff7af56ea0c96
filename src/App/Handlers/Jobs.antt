-- ===== src/App/Handlers/Jobs.antt =====
-- The jobs in flight of control-plane/app.py (`_inflight`), from request to request.
use saas_ntier_lab.Prelude.{
  String, ◌≡◌, refl, true, false, ◌&&◌, not, Option, none, some, List, [], ◌∷◌, ◌==◌, arith,
  if◌then◌else◌, strip, Bool-cases, inl, inr,
}
use saas_ntier_lab.Errors.{Result, ok, err}
use saas_ntier_lab.Ids.{validate_tenant_id}
use saas_ntier_lab.Store.{Row, Status}
use saas_ntier_lab.Store
use saas_ntier_lab.Exec.{Platform, World, Exec, store_upsert}
use saas_ntier_lab.Reconcile.{Handlers, reconcile_one}
use saas_ntier_lab.Reconcile.Sweep.{reconcile_all}
use saas_ntier_lab.App.{Response, Job, Server, job_id, in_flight, flag, start_job}
use saas_ntier_lab.App.Handlers.{
  Served, NewTenant, go_on, then_serve, new_fields, tier_of, deleting_fields, with_id, started,
  create_from, create_valid, create_tenant, list_tenants, get_tenant, suspend, resume, resume_found,
  mark_and_start, remove, remove_found, reconcile, reconcile_tenant, refuse_existing, is_deleting,
  Request, list_all, reconcile_every, get_one, suspend_one, resume_one, remove_one,
  reconcile_single, create, serve,
}

-- No two jobs are of the same tenant.
abbrev pub OneEach : List (String × Job) → Type 0
OneEach [] = Unit
OneEach (j ∷ jobs) = (in_flight (job_id j) jobs ≡ false) × OneEach jobs

-- The thread of the tenant ends, and its id is discarded.
unfoldable pub end_job : String → List (String × Job) → List (String × Job)
end_job k [] = []
end_job k (j ∷ jobs) = let rest = end_job k jobs in if job_id j == k then rest else j ∷ rest

module _ {p : Platform} where
  pub record KeepsJobs (f : Served p) : Type 0 where
    pub at : (s : Server p) → OneEach s.jobs → OneEach (f s).1.jobs

  started-OneEach :
      (k : String) (status : Status) (job : Job) → KeepsJobs (started {p = p} k status job)
  unfolding started start_job
  started-OneEach k status job = record { at = λ s h. go s h }
    where
      go : (s : Server p) → OneEach s.jobs → OneEach (started {p = p} k status job s).1.jobs
      go s h = elim (Bool-cases (in_flight k s.jobs)) [ inl t ↦ rw t h | inr f ↦ rw f (f, h) ]

  go_on-OneEach :
      {A : Type 0} (f : A → Served p)
      → ((a : A) → KeepsJobs (f a))
      → (r : Result A) (s : Server p) → OneEach s.jobs
      → OneEach (go_on r f s).1.jobs
  go_on-OneEach f k (ok a) s h = (k a).at s h
  go_on-OneEach f k (err e) s h = h

  then-OneEach :
      {A : Type 0} (m : Exec p A) (f : A → Served p)
      → ((a : A) → KeepsJobs (f a))
      → KeepsJobs (then_serve m f)
  unfolding then_serve
  then-OneEach m f k = record {
    at = λ s h. go_on-OneEach f k (m s.world).0 (record s { world = (m s.world).1 }) h;
  }

  with_id-OneEach :
      (k : String) (f : String → Served p)
      → ((a : String) → KeepsJobs (f a))
      → KeepsJobs (with_id k f)
  unfolding with_id
  with_id-OneEach k f kf = record {
    at = λ s h. go_on-OneEach f kf (validate_tenant_id (some k)) s h;
  }

  create-OneEach : (body : NewTenant) → KeepsJobs (create_tenant {p = p} body)
  unfolding create_tenant create_valid create_from
  create-OneEach body = record { at = λ s h. valid s h (validate_tenant_id (some (strip body.id))) }
    where
      from :
          (s : Server p)
          → OneEach s.jobs
          → (k : String) (o : Option Response) → OneEach (create_from body k o s).1.jobs
      from s h k (some r) = h
      from s h k none =
          (then-OneEach (store_upsert k (new_fields (tier_of body.tier))) _ (λ _.
              started-OneEach k Status.provisioning (
                Job.provisioning (tier_of body.tier) (flag body.ensure_infra false)
                  (flag body.ensure_identity true && not (flag body.ensure_infra false))))).at
            s h

      valid :
          (s : Server p)
          → OneEach s.jobs
          → (r : Result String) → OneEach (create_valid body r s).1.jobs
      valid s h (ok k) = from s h k (refuse_existing (Store.get s.world.table k))
      valid s h (err e) = h

  resume-OneEach : (k : String) → KeepsJobs (resume {p = p} k)
  unfolding resume resume_found
  resume-OneEach k =
      with_id-OneEach k _ (λ a. record { at = λ s h. found s h a (Store.get s.world.table a) })
    where
      by :
          (s : Server p)
          → OneEach s.jobs
          → (a : String) (r : Row) (st : Status) → r.status ≡ st
          → OneEach (resume_found a (some r) s).1.jobs
      by s h a r Status.suspended e =
          rw e ((started-OneEach a Status.suspended Job.resuming).at s h)
      by s h a r Status.active e = rw e h
      by s h a r Status.provisioning e = rw e h
      by s h a r Status.deleting e = rw e h
      by s h a r Status.delete_failed e = rw e h
      by s h a r Status.failed e = rw e h
      by s h a r Status.drift e = rw e h
      by s h a r (Status.other t) e = rw e h

      found :
          (s : Server p)
          → OneEach s.jobs
          → (a : String) (o : Option Row) → OneEach (resume_found a o s).1.jobs
      found s h a none = h
      found s h a (some r) = by s h a r r.status refl

  mark-OneEach : (k : String) → KeepsJobs (mark_and_start {p = p} k)
  unfolding mark_and_start
  mark-OneEach k = then-OneEach _ _ (λ _. started-OneEach k Status.deleting Job.deleting)

  remove-OneEach : (k : String) → KeepsJobs (remove {p = p} k)
  unfolding remove remove_found
  remove-OneEach k =
      with_id-OneEach k _ (λ a. record { at = λ s h. found s h a (Store.get s.world.table a) })
    where
      found :
          (s : Server p)
          → OneEach s.jobs
          → (a : String) (o : Option Row) → OneEach (remove_found a o s).1.jobs
      found s h a none =
          (then-OneEach (store_upsert a deleting_fields) _ (λ _. mark-OneEach a)).at s h
      found s h a (some r) = elim (Bool-cases (is_deleting r.status && in_flight a s.jobs)) [
        | inl t ↦ rw t h
        | inr f ↦ rw f ((mark-OneEach a).at s h)
      ]

  quiet-OneEach : (f : Served p) → ((s : Server p) → (f s).1.jobs ≡ s.jobs) → KeepsJobs f
  quiet-OneEach f same = record { at = λ s h. rw (same s) h }

module _ {p : Platform} (h : Handlers p) (ns : Exec p (List String)) where
  serve-OneEach : (r : Request) → KeepsJobs (serve h ns r)
  unfolding serve list_tenants get_tenant suspend reconcile reconcile_tenant
  serve-OneEach list_all = quiet-OneEach _ (λ s. refl)
  serve-OneEach reconcile_every =
      then-OneEach (reconcile_all h ns) _ (λ o. quiet-OneEach _ (λ s. refl))
  serve-OneEach (get_one k) = with_id-OneEach k _ (λ a. quiet-OneEach _ (λ s. refl))
  serve-OneEach (suspend_one k) = with_id-OneEach k _ (λ a. quiet-OneEach _ (λ s. refl))
  serve-OneEach (resume_one k) = resume-OneEach k
  serve-OneEach (remove_one k) = remove-OneEach k
  serve-OneEach (reconcile_single k) =
      with_id-OneEach k _
        (λ a. then-OneEach (reconcile_one h a) _ (λ o. quiet-OneEach _ (λ s. refl)))
  serve-OneEach (create body) = create-OneEach body

  -- What happens to the server: a request is served, the threads of the jobs change the world, or the
  -- thread of a tenant's job ends.
  pub data Step : Server p → Server p → Type 0 where
    request : (r : Request) (s : Server p) → Step s (serve h ns r s).1
    work : (s : Server p) (w : World p) → Step s (record s { world = w })
    ended : (k : String) (s : Server p) → Step s (record s { jobs = end_job k s.jobs })

  pub data Steps : Server p → Server p → Type 0 where
    start : {s : Server p} → Steps s s
    next : {s t u : Server p} → Steps s t → Step t u → Steps s u

  end-quiet :
      (k j : String) (jobs : List (String × Job))
      → in_flight j jobs ≡ false
      → in_flight j (end_job k jobs) ≡ false
  unfolding end_job
  end-quiet k j [] f = refl
  end-quiet k j ((i, job) ∷ jobs) f = ground (arith, end-quiet k j jobs)

  end-OneEach : (k : String) (jobs : List (String × Job)) → OneEach jobs → OneEach (end_job k jobs)
  unfolding end_job
  end-OneEach k [] o = tt
  end-OneEach k (j ∷ jobs) o = elim (Bool-cases (job_id j == k)) [
    | inl t ↦ rw t (end-OneEach k jobs o.1)
    | inr f ↦ rw f (end-quiet k (job_id j) jobs o.0, end-OneEach k jobs o.1)
  ]

  Step-OneEach : {s t : Server p} → Step s t → OneEach s.jobs → OneEach t.jobs
  Step-OneEach (request r s) o = (serve-OneEach r).at s o
  Step-OneEach (work s w) o = o
  Step-OneEach (ended k s) o = end-OneEach k s.jobs o

  -- However requests, the work of threads and their ends follow on each other, from a server without
  -- jobs on, no two jobs of the same tenant are ever in flight.
  pub one_job_each : {s t : Server p} → Steps s t → s.jobs ≡ [] → OneEach t.jobs
  one_job_each start q = rw q tt
  one_job_each (next before step) q = Step-OneEach step (one_job_each before q)

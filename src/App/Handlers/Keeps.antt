-- ===== src/App/Handlers/Keeps.antt =====
-- The registry's invariant under the handlers of control-plane/app.py.
use saas_ntier_lab.Prelude.{
  String, ◌≡◌, refl, ◌&&◌, Option, none, some, List, strip, Bool-cases, inl, inr,
}
use saas_ntier_lab.Errors.{Result, ok, err}
use saas_ntier_lab.Ids.{validate_tenant_id}
use saas_ntier_lab.Store.{Row, Status}
use saas_ntier_lab.Store
use saas_ntier_lab.Store.Invariant.{IsRegistry}
use saas_ntier_lab.Exec.{Platform, Exec, store_upsert}
use saas_ntier_lab.Exec.Keeps.{Keeps, Registered, upsert-Registered}
use saas_ntier_lab.Lifecycle.Suspending.Keeps.{suspend_tenant-Registered}
use saas_ntier_lab.Reconcile.{Handlers, reconcile_one}
use saas_ntier_lab.Reconcile.Keeps.{IsSafe, reconcile_one-Registered}
use saas_ntier_lab.Reconcile.Sweep.{reconcile_all}
use saas_ntier_lab.Reconcile.Sweep.Keeps.{reconcile_all-Registered}
use saas_ntier_lab.App.{Response, Job, Server, in_flight, start_job}
use saas_ntier_lab.App.Handlers.{
  Served, NewTenant, go_on, then_serve, new_fields, tier_of, deleting_fields, with_id, started,
  create_from, create_valid, create_tenant, list_tenants, get_tenant, suspend, resume, resume_found,
  mark_and_start, remove, remove_found, reconcile, reconcile_tenant, refuse_existing, is_deleting,
  Request, list_all, reconcile_every, get_one, suspend_one, resume_one, remove_one,
  reconcile_single, create, serve,
}

-- The handler keeps the registry's invariant.
pub record KeepsRows {p : Platform} (f : Served p) : Type 0 where
  pub at : (s : Server p) → IsRegistry s.world.table → IsRegistry (f s).1.world.table

module _ {p : Platform} where
  same_rows : (f : Served p) → ((s : Server p) → (f s).1.world.table ≡ s.world.table) → KeepsRows f
  same_rows f same = record { at = λ s h. rw (same s) h }

  started-KeepsRows :
      (k : String) (status : Status) (job : Job) → KeepsRows (started {p = p} k status job)
  unfolding started start_job
  started-KeepsRows k status job = same_rows _ same
    where
      same : (s : Server p) → (started {p = p} k status job s).1.world.table ≡ s.world.table
      same s = elim (Bool-cases (in_flight k s.jobs)) [ inl t ↦ rw t refl | inr f ↦ rw f refl ]

  go_on-KeepsRows :
      {A : Type 0} (f : A → Served p)
      → ((a : A) → KeepsRows (f a))
      → (r : Result A) → KeepsRows (go_on r f)
  go_on-KeepsRows f k (ok a) = k a
  go_on-KeepsRows f k (err e) = same_rows _ (λ s. refl)

  then-KeepsRows :
      {A : Type 0} (m : Exec p A) (f : A → Served p)
      → Keeps (Registered p) m
      → ((a : A) → KeepsRows (f a))
      → KeepsRows (then_serve m f)
  unfolding then_serve
  then-KeepsRows m f km k = record {
    at = λ s h.
        (go_on-KeepsRows f k (m s.world).0).at (record s { world = (m s.world).1 })
          (km.at s.world h);
  }

  with_id-KeepsRows :
      (k : String) (f : String → Served p)
      → ((a : String) → KeepsRows (f a))
      → KeepsRows (with_id k f)
  unfolding with_id
  with_id-KeepsRows k f kf = go_on-KeepsRows f kf (validate_tenant_id (some k))

  create_from-KeepsRows :
      (body : NewTenant) (k : String) (o : Option Response)
      → KeepsRows (create_from {p = p} body k o)
  unfolding create_from
  create_from-KeepsRows body k (some r) = same_rows _ (λ s. refl)
  create_from-KeepsRows body k none =
      then-KeepsRows (store_upsert k (new_fields (tier_of body.tier))) _ (upsert-Registered k _)
        (λ _. started-KeepsRows k Status.provisioning _)

  create-KeepsRows : (body : NewTenant) → KeepsRows (create_tenant {p = p} body)
  unfolding create_tenant
  create-KeepsRows body = record {
    at = λ s h. valid s h (validate_tenant_id (some (strip body.id)));
  }
    where
      valid :
          (s : Server p)
          → IsRegistry s.world.table
          → (r : Result String) → IsRegistry (create_valid body r s).1.world.table
      valid s h (ok k) =
          unfold create_valid in
          (create_from-KeepsRows body k (refuse_existing (Store.get s.world.table k))).at s h
      valid s h (err e) = unfold create_valid in h

  row_resumed :
      (k : String) (r : Row) (st : Status)
      → r.status ≡ st
      → KeepsRows (resume_found {p = p} k (some r))
  unfolding resume_found
  row_resumed k r Status.suspended e = rw e (started-KeepsRows k Status.suspended Job.resuming)
  row_resumed k r Status.active e = rw e (same_rows _ (λ s. refl))
  row_resumed k r _ e = rw e (same_rows _ (λ s. refl))

  resume_found-KeepsRows : (k : String) (o : Option Row) → KeepsRows (resume_found {p = p} k o)
  unfolding resume_found
  resume_found-KeepsRows k none = same_rows _ (λ s. refl)
  resume_found-KeepsRows k (some r) = row_resumed k r r.status refl

  mark-KeepsRows : (k : String) → KeepsRows (mark_and_start {p = p} k)
  unfolding mark_and_start
  mark-KeepsRows k =
      then-KeepsRows (store_upsert k deleting_fields) _ (upsert-Registered k _)
        (λ _. started-KeepsRows k Status.deleting Job.deleting)

  remove_found-KeepsRows : (k : String) (o : Option Row) → KeepsRows (remove_found {p = p} k o)
  unfolding remove_found
  remove_found-KeepsRows k none =
      then-KeepsRows (store_upsert k deleting_fields) _ (upsert-Registered k _)
        (λ _. mark-KeepsRows k)
  remove_found-KeepsRows k (some r) = record {
    at = λ s h. elim (Bool-cases (is_deleting r.status && in_flight k s.jobs)) [
      | inl t ↦ rw t h
      | inr f ↦ rw f ((mark-KeepsRows k).at s h)
    ];
  }

  suspend-KeepsRows : (k : String) → KeepsRows (suspend {p = p} k)
  unfolding suspend
  suspend-KeepsRows k =
      with_id-KeepsRows k _ (λ a. record { at = λ s h. (suspend_tenant-Registered a).at s.world h })

module _ {p : Platform} (h : Handlers p) (safe : IsSafe h) (ns : Exec p (List String))
    (kept : Keeps (Registered p) ns) where
  -- Every request, whatever its route, its body and its tenant id.
  pub serve-KeepsRows : (r : Request) → KeepsRows (serve h ns r)
  unfolding serve list_tenants get_tenant resume remove reconcile reconcile_tenant
  serve-KeepsRows list_all = same_rows _ (λ s. refl)
  serve-KeepsRows reconcile_every =
      then-KeepsRows (reconcile_all h ns) _ (reconcile_all-Registered h safe ns kept)
        (λ o. same_rows _ (λ s. refl))
  serve-KeepsRows (get_one k) = with_id-KeepsRows k _ (λ a. same_rows _ (λ s. refl))
  serve-KeepsRows (suspend_one k) = suspend-KeepsRows k
  serve-KeepsRows (resume_one k) =
      with_id-KeepsRows k _
        (λ a. record { at = λ s v. (resume_found-KeepsRows a (Store.get s.world.table a)).at s v })
  serve-KeepsRows (remove_one k) =
      with_id-KeepsRows k _
        (λ a. record { at = λ s v. (remove_found-KeepsRows a (Store.get s.world.table a)).at s v })
  serve-KeepsRows (reconcile_single k) = with_id-KeepsRows k _ (λ a.
      then-KeepsRows (reconcile_one h a) _ (reconcile_one-Registered h safe a)
        (λ o. same_rows _ (λ s. refl)))
  serve-KeepsRows (create body) = create-KeepsRows body

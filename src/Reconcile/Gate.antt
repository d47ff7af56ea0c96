-- ===== src/Reconcile/Gate.antt =====
-- When control-plane/reconcile.py writes ACTIVE.
pub mod Seen
use mathlib.Core.Path.{subst}
use saas_ntier_lab.Prelude.{
  String, ◌≡◌, refl, ◌∙◌, true, Option, none, some, arith, or_else, if◌then◌else◌, ◌⊎◌, inl, inr,
}
use saas_ntier_lab.Errors.{ok, Error, is_control_plane}
use saas_ntier_lab.Ids.Grammar.{IsTenantId, validate_of_IsTenantId}
use saas_ntier_lab.Store
use saas_ntier_lab.Store.{Row, Fields, Status, Desired, merge, fresh, no_fields}
use saas_ntier_lab.Store.Versions.{stored}
use saas_ntier_lab.Observe.{Observed, as_json}
use saas_ntier_lab.Contract.{ContractResult}
use saas_ntier_lab.Exec.{Platform, World, ◌>>=◌, catch, store_get, store_upsert}
use saas_ntier_lab.Exec.Ends.{Fails, Fails-rest, Fails-if, Fails-raise}
use saas_ntier_lab.Exec.Returns.{
  Returns, Returns-bind, Returns-rest, Returns-catch, upsert-Returns, >>=-eq-ok,
}
use saas_ntier_lab.Reconcile.{
  Handlers, Action, no_action, purge_registry, delete, suspend, provision, resume, repair,
  plan_action, Report, gate_fields, row_or_absent, toward_active, desired_or_active, gate, settle,
  perform, record_failure, confirm, confirm_row, finish, act, reconcile_found, reconcile_one,
}
use saas_ntier_lab.Reconcile.Gate.Seen.{
  HasSeen, IsActiveReport, upsert-log, reported, gate_lem, settle_lem,
}

-- Reconciling a tenant that is in the registry.
pub reconcile_one_found :
    {p : Platform} (h : Handlers p) (k : String) (w : World p) (row : Row)
    → IsTenantId k
    → Store.get w.table k ≡ some row
    → reconcile_one h k w ≡ reconcile_found h k (some row) w
unfolding reconcile_one store_get
reconcile_one_found h k w row v g = rw (validate_of_IsTenantId k v) (rw g)

module _ {p : Platform} (h : Handlers p) (k : String) where
  -- `perform` returns a report only for a deletion.
  perform-none :
      (a : Action) (row : Row) (why : String)
      → toward_active a ≡ true
      → Returns (λ (r : Option Report) w. r ≡ none) (perform h a k row why)
  unfolding perform
  perform-none provision row why t =
      Returns-rest (h.provision_fn k (or_else row.tier "standard")) _
        (λ _. record { at = λ w a q. cc })
  perform-none repair row why t =
      Returns-rest (h.provision_fn k (or_else row.tier "standard")) _
        (λ _. record { at = λ w a q. cc })
  perform-none resume row why t = Returns-rest (h.resume_fn k) _ (λ _. record { at = λ w a q. cc })
  perform-none no_action row why t = cc
  perform-none purge_registry row why t = cc
  perform-none delete row why t = cc
  perform-none suspend row why t = cc

  failure-Fails :
      {A : Type 0} (d : Desired) (e : Error) → Fails (record_failure {p = p} h {A = A} d k e)
  unfolding record_failure
  failure-Fails d e =
      Fails-if (is_control_plane e.kind) _ _ (Fails-rest (store_upsert k _) _ (λ _. Fails-raise e))
        (Fails-raise e)

  confirm_row_lem :
      (a : Action) (why : String) (row : Row) (w : World p) (b : Report)
      → toward_active a ≡ true
      → row ≡ row_or_absent k (Store.get w.table k)
      → (confirm_row h a Desired.active k why row w).0 ≡ ok b
      → IsActiveReport h k b (confirm_row h a Desired.active k why row w).1
  unfolding confirm_row
  confirm_row_lem a why row w b t is q =
      let (r, checked, rest, e) = >>=-eq-ok (gate h k row) _ w b (rw t at q) in
      rw t (rw e (reported h k r (some why) b _ rest (gate_lem h k row r w is checked)))

  finished :
      (a : Action) (why : String)
      → toward_active a ≡ true
      → (r : Option Report) (w : World p) → r ≡ none
      → (b : Report) → (finish h a Desired.active k why r w).0 ≡ ok b
      → IsActiveReport h k b (finish h a Desired.active k why r w).1
  unfolding finish confirm store_get
  finished a why t (some r) w e b q = cc
  finished a why t none w e b q =
      confirm_row_lem a why (row_or_absent k (Store.get w.table k)) w b t refl q

  acted :
      (a : Action) (row : Row) (why : String)
      → toward_active a ≡ true
      → Returns (IsActiveReport h k) (
          catch (perform h a k row why) (record_failure h Desired.active k)
          >>= finish h a Desired.active k why)
  acted a row why t =
      Returns-bind (catch (perform h a k row why) (record_failure h Desired.active k)) _
        (Returns-catch (perform h a k row why) _ (perform-none a row why t)
          (failure-Fails Desired.active))
        (finished a why t)

  act-Returns :
      (a : Action) (o : Observed) (row : Row) (why : String)
      → toward_active a ≡ true
      → Returns (IsActiveReport h k) (act h a Desired.active k o row why)
  unfolding act
  act-Returns provision o row why t = acted provision row why t
  act-Returns repair o row why t = acted repair row why t
  act-Returns resume o row why t = acted resume row why t
  act-Returns no_action o row why t = cc
  act-Returns purge_registry o row why t = cc
  act-Returns delete o row why t = cc
  act-Returns suspend o row why t = cc

  -- A plan for a tenant that is to be ACTIVE does nothing or works towards it.
  planned :
      (o : Observed) (s : Status)
      → ((plan_action Desired.active o s).action ≡ no_action)
        ⊎ (toward_active (plan_action Desired.active o s).action ≡ true)
  unfolding plan_action
  planned o s = ground arith

  decided :
      (o : Observed) (row : Row) (s : Status) (v w : World p) (b : Report)
      → HasSeen h k v row o w
      → (act h
          (plan_action Desired.active o s).action
          Desired.active
          k
          o
          row
          (plan_action Desired.active o s).reason
          w).0
        ≡ ok b
      → IsActiveReport h k b
          (act h
            (plan_action Desired.active o s).action
            Desired.active
            k
            o
            row
            (plan_action Desired.active o s).reason
            w).1
  decided o row s v w b look q =
      let why : String = (plan_action Desired.active o s).reason in
      elim (planned o s) [
        | inl stay ↦
            rw stay (unfold act in settle_lem h k o row why v w b look (unfold act in rw stay at q))
        | inr move ↦ (act-Returns (plan_action Desired.active o s).action o row why move).at w b q
      ]

  found_lem :
      (row : Row) (w : World p) (b : Report)
      → Store.get w.table k ≡ some row
      → desired_or_active row.desired_status ≡ Desired.active
      → (reconcile_found h k (some row) w).0 ≡ ok b
      → IsActiveReport h k b (reconcile_found h k (some row) w).1
  unfolding reconcile_found
  found_lem row w b g d q =
      let (o, seen, rest, e) = >>=-eq-ok (h.observe k row) _ w b q in
      let v = (h.observe k row w).1 in
      let f : Fields = record no_fields { observed_json = some (some (as_json o)) } in
      let (old, noted, rest2, e2) = >>=-eq-ok (store_upsert k f) _ v b rest in
      let look : HasSeen h k w row o (store_upsert k f v).1 = record {
        item_is = rw g refl;
        seen = seen;
        last = upsert-log k f v;
      } in
      rw e (rw e2 (rw d (decided o row row.status w _ b look (rw d at rest2))))

  -- Take a tenant of the registry with a valid id, whose desired status is ACTIVE or empty. Whenever
  -- reconciling it returns, it reports a row that is in the registry, and whose status is what the
  -- contract says of what the observer has returned in this run: ACTIVE if the contract passes, and DRIFT
  -- with the contract's reason if it does not. The observer and the contract were given the row that the
  -- tenant had when the observer was asked, or a bare one if it had none. The row records that
  -- observation, and no call outside the registry has been made since.
  pub reconcile_active_gated :
      (w : World p) (row : Row) (b : Report)
      → IsTenantId k
      → Store.get w.table k ≡ some row
      → desired_or_active row.desired_status ≡ Desired.active
      → (reconcile_one h k w).0 ≡ ok b
      → IsActiveReport h k b (reconcile_one h k w).1
  reconcile_active_gated w row b v g d q =
      let e = reconcile_one_found h k w row v g in rw e (found_lem row w b g d (rw e at q))

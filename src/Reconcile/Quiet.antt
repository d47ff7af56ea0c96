-- ===== src/Reconcile/Quiet.antt =====
-- Reconciling a tenant that is as it should be, in control-plane/reconcile.py.
use saas_ntier_lab.Prelude.{String, ◌≡◌, refl, ap, ◌∙◌, sym, true, some, List, [], ◌∷◌}
use saas_ntier_lab.Errors.{ok}
use saas_ntier_lab.Ids.Grammar.{IsTenantId}
use saas_ntier_lab.Store
use saas_ntier_lab.Store.{Row, Fields, Desired, no_fields}
use saas_ntier_lab.Observe.{Observed, as_json}
use saas_ntier_lab.Exec.{Platform, World, Exec, Call, ◌>>◌, store_upsert}
use saas_ntier_lab.Exec.Keeps.{Keeps, Keeps-bind, Logged, logged_rules, only, upsert-Logged}
use saas_ntier_lab.Reconcile.Gate.{reconcile_one_found}
use saas_ntier_lab.Reconcile.{
  Handlers, Report, Plan, no_action, plan_action, desired_or_active, settle, act, reconcile_found,
  reconcile_one,
}

only-all : (l : List Call) → only (λ c. true) l ≡ l
only-all [] = refl
only-all (c ∷ l) = ap (λ (t : List Call). c ∷ t) (only-all l)

module _ {p : Platform} (h : Handlers p) where
  settle-Logged :
      {l : List Call} (d : Desired) (k : String) (o : Observed) (r : Row) (why : String)
      → Keeps (Logged p (λ c. true) l) (settle h d k o r why)
  unfolding settle
  settle-Logged Desired.gone k o r why = search logged_rules
  settle-Logged Desired.suspended k o r why = search logged_rules
  settle-Logged _ k o r why = search logged_rules

  act-Logged :
      {l : List Call} (a : Plan) (d : Desired) (k : String) (o : Observed) (r : Row)
      → a.action ≡ no_action
      → Keeps (Logged p (λ c. true) l) (act h a.action d k o r a.reason)
  unfolding act
  act-Logged a d k o r q = rw q (settle-Logged d k o r a.reason)

  -- What follows the observation
  abbrev noted : String → Row → Observed → Plan → Exec p Report
  noted k row o a =
      store_upsert k (record no_fields { observed_json = some (some (as_json o)) })
      >> act h a.action (desired_or_active row.desired_status) k o row a.reason

  observed_lem :
      (k : String) (row : Row) (o : Observed) (w : World p)
      → (h.observe k row w).0 ≡ ok o
      → reconcile_found h k (some row) w
        ≡ noted k row o
            (plan_action (desired_or_active row.desired_status) o row.status)
            (h.observe k row w).1
  unfolding reconcile_found
  observed_lem k row o w seen = rw seen refl

  noted-Logged :
      {l : List Call} (k : String) (row : Row) (o : Observed) (a : Plan)
      → a.action ≡ no_action
      → Keeps (Logged p (λ c. true) l) (noted k row o a)
  noted-Logged k row o a q =
      Keeps-bind (store_upsert k _) _ (upsert-Logged k _) (λ _. act-Logged a _ k o row q)

  -- Take a tenant with a valid id and a row, and an observation that asks for no action under its
  -- desired status. Then reconciling it makes no call besides those of the observer: it changes nothing
  -- outside the registry.
  pub reconcile_quiet :
      (k : String) (row : Row) (o : Observed) (w : World p)
      → IsTenantId k
      → Store.get w.table k ≡ some row
      → (h.observe k row w).0 ≡ ok o
      → (plan_action (desired_or_active row.desired_status) o row.status).action ≡ no_action
      → (reconcile_one h k w).1.log ≡ (h.observe k row w).1.log
  reconcile_quiet k row o w v found seen quiet =
      let a : Plan = plan_action (desired_or_active row.desired_status) o row.status in
      let w' = (h.observe k row w).1 in
      let same = reconcile_one_found h k w row v found ∙ observed_lem k row o w seen in
      let kept = (noted-Logged k row o a quiet).at w' (record { same = refl }) in
      rw same (sym (only-all (noted k row o a w').1.log) ∙ kept.same ∙ only-all w'.log)

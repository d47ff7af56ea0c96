-- ===== src/Reconcile/Sweep/Ends.antt =====
-- How the sweep of control-plane/reconcile.py ends.
use saas_ntier_lab.Prelude.{
  String, ◌≡◌, refl, true, false, Option, none, some, List, [], ◌∷◌, ◌⊎◌, inl, inr, All, Bool-cases,
  sort_by-All,
}
use saas_ntier_lab.Errors.{Result, Result-cases, ok, err, Error, is_control_plane, retryable}
use saas_ntier_lab.Ids.Grammar.{IsTenantId}
use saas_ntier_lab.Store
use saas_ntier_lab.Store.{
  Row, Fields, Status, Table, is_desired, fresh, infer_desired, desired_or_inferred,
}
use saas_ntier_lab.Store.Invariant.{IsRegistry, get-IsSound}
use saas_ntier_lab.Store.Versions.{stored, stored_kept, upsert_accepts}
use saas_ntier_lab.Exec.{Platform, World, Exec, store_list, store_upsert}
use saas_ntier_lab.Exec.Keeps.{Keeps, Registered}
use saas_ntier_lab.Reconcile.{Handlers, Report, reconcile_one}
use saas_ntier_lab.Reconcile.Keeps.{IsSafe, reconcile_one-Registered}
use saas_ntier_lab.Reconcile.Sweep.{
  Entry, Sweep, reported, drifted, swept_fields, sweep_failure, sweep_one, sweep_rows,
  reconcile_all, list_unmanaged_namespaces,
}
use saas_ntier_lab.Reconcile.Sweep.Keeps.{one-Registered}

inferred : (s : Status) → is_desired (infer_desired s) ≡ true
inferred Status.suspended = refl
inferred Status.deleting = refl
inferred Status.delete_failed = refl
inferred _ = refl

-- The row that the sweep's own write would store has one of the three desired statuses.
swept_desired :
    (now k : String) (row : Row) (e : Error) (t : Table) (o : Option Row)
    → IsRegistry t
    → Store.get t k ≡ o
    → is_desired (stored now k (swept_fields row e) o).desired_status ≡ true
unfolding fresh desired_or_inferred
swept_desired now k row e t none i g = inferred _
swept_desired now k row e t (some old) i g =
    rw (stored_kept now k (swept_fields row e) old refl) ((get-IsSound t k old i g).desired)

-- On a registry the sweep's own write is accepted.
swept_accepted :
    {p : Platform} (k : String) (row : Row) (e : Error) (w : World p)
    → IsTenantId k
    → IsRegistry w.table
    → (r : Row) × ((store_upsert k (swept_fields row e) w).0 ≡ ok r)
unfolding store_upsert
swept_accepted {p} k row e w v i =
    let now : String = (p.utcnow w.ext).0 in
    (
      stored now k (swept_fields row e) (Store.get w.table k),
      upsert_accepts now k (swept_fields row e) w.table v
          (swept_desired now k row e w.table (Store.get w.table k) i refl),
    )

list-All : (t : Table) → IsRegistry t → All (λ r. IsTenantId r.id) (Store.list t)
unfolding Store.list
list-All t i = sort_by-All (λ (r : Row). r.id) (λ r. IsTenantId r.id) t (ids t i)
  where
    ids : (t : Table) → IsRegistry t → All (λ (r : Row). IsTenantId r.id) t
    ids [] i = tt
    ids (r ∷ t) i = (i.0.id, ids t i.2)

module _ {p : Platform} (h : Handlers p) where
  -- What the sweep says of a tenant that it comes to in the state `w`: the report of its reconciliation,
  -- or, if that raises a ControlPlaneError, the error.
  pub data IsEntry (row : Row) (w : World p) (entry : Entry) : Type 0 where
    returned :
        (r : Report)
        → (reconcile_one h row.id w).0 ≡ ok r
        → entry ≡ reported r
        → IsEntry row w entry
    raised :
        (e : Error)
        → (reconcile_one h row.id w).0 ≡ err e
        → is_control_plane e.kind ≡ true
        → entry ≡ drifted row.id e.message (retryable e.kind)
        → IsEntry row w entry

  -- One entry for each row, in their order.
  abbrev pub AreEntries : List Row → World p → List Entry → Type 0
  AreEntries [] w [] = Unit
  AreEntries [] w (e ∷ es) = ⊥
  AreEntries (row ∷ rows) w [] = ⊥
  AreEntries (row ∷ rows) w (e ∷ es) = IsEntry row w e × AreEntries rows (sweep_one h row w).1 es

  -- The reconciliation of one of the rows, in the state in which the sweep comes to it, has raised this
  -- exception.
  abbrev pub HasRaised : List Row → World p → Error → Type 0
  HasRaised [] w e = ⊥
  HasRaised (row ∷ rows) w e =
      ((reconcile_one h row.id w).0 ≡ err e) ⊎ HasRaised rows (sweep_one h row w).1 e

  abbrev RowsEnd : List Row → World p → Result (List Entry) → Type 0
  RowsEnd rows w r =
      ((es : List Entry) × (r ≡ ok es) × AreEntries rows w es)
      ⊎ ((e : Error) × (r ≡ err e) × (is_control_plane e.kind ≡ false) × HasRaised rows w e)

  -- How the sweep over the registry in the state `w` ends, where the namespaces are `ns` and `v` is the
  -- state after they are listed.
  abbrev pub SweepEnds : World p → List String → World p → Result Sweep → Type 0
  SweepEnds w ns v r =
      ((s : Sweep) × (r ≡ ok s)
        × AreEntries (Store.list v.table) v s.tenants
        × (s.unmanaged_namespaces ≡ list_unmanaged_namespaces ns (Store.list w.table)))
      ⊎ ((e : Error) × (r ≡ err e)
          × (is_control_plane e.kind ≡ false)
          × HasRaised (Store.list v.table) v e)

  module _ (safe : IsSafe h) where
    one_lem :
        (row : Row) (w : World p)
        → IsTenantId row.id
        → IsRegistry w.table
        → ((entry : Entry) × ((sweep_one h row w).0 ≡ ok entry) × IsEntry row w entry)
          ⊎ ((e : Error) × ((sweep_one h row w).0 ≡ err e)
              × (is_control_plane e.kind ≡ false)
              × ((reconcile_one h row.id w).0 ≡ err e))
    unfolding sweep_one sweep_failure
    one_lem row w v i = elim (Result-cases (reconcile_one h row.id w).0) [
      | inl (r, q) ↦ inl (reported r, rw q refl, returned r q refl)
      | inr (e, q) ↦ elim (Bool-cases (is_control_plane e.kind)) [
        | inl cp ↦
            let kept = (reconcile_one-Registered h safe row.id).at w i in
            let (r, accepted) = swept_accepted row.id row e (reconcile_one h row.id w).1 v kept in
            inl (
              drifted row.id e.message (retryable e.kind),
              rw q (rw cp (rw accepted refl)),
              raised e q cp refl,
            )
        | inr other ↦ inr (e, rw q (rw other refl), other, q)
      ]
    ]

    rows_lem :
        (rows : List Row) (w : World p)
        → All (λ r. IsTenantId r.id) rows
        → IsRegistry w.table
        → RowsEnd rows w (sweep_rows h rows w).0
    unfolding sweep_rows
    rows_lem [] w vs i = inl ([], refl, tt)
    rows_lem (row ∷ rows) w vs i = elim (one_lem row w vs.0 i) [
      | inl (entry, q, is) ↦
          let w' = (sweep_one h row w).1 in
          elim (rows_lem rows w' vs.1 ((one-Registered h safe row).at w i)) [
            | inl (es, q', are) ↦ inl (entry ∷ es, rw q (rw q' refl), (is, are))
            | inr (e, q', other, has) ↦ inr (e, rw q (rw q' refl), other, inr has)
          ]
      | inr (e, q, other, has) ↦ inr (e, rw q refl, other, inl has)
    ]

    -- Take a registry, functions of reconciling and a listing of namespaces that keep its invariant, and
    -- let the listing return. Then the sweep either returns, with one entry for each row that the registry
    -- has after the listing, in their order: what reconciling the row has returned, or the
    -- ControlPlaneError that it has raised; and with the tenant namespaces that are of no row that the
    -- registry had at the start. Or it raises, and then what one of the reconciliations has raised, which
    -- is no ControlPlaneError.
    pub sweep_ends :
        (names : Exec p (List String)) (w : World p) (ns : List String)
        → Keeps (Registered p) names
        → IsRegistry w.table
        → (names w).0 ≡ ok ns
        → SweepEnds w ns (names w).1 (reconcile_all h names w).0
    unfolding reconcile_all store_list
    sweep_ends names w ns kept i q =
        let v = (names w).1 in
        let still = kept.at w i in
        elim (rows_lem (Store.list v.table) v (list-All v.table still) still) [
          | inl (es, q', are) ↦ inl (
            record {
              tenants = es;
              unmanaged_namespaces = list_unmanaged_namespaces ns (Store.list w.table);
            },
            rw q (rw q' refl),
            are,
            refl,
          )
          | inr (e, q', other, has) ↦ inr (e, rw q (rw q' refl), other, has)
        ]

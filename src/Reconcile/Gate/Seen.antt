-- ===== src/Reconcile/Gate/Seen.antt =====
-- The gate of control-plane/reconcile.py: what it has seen, and the row that it writes.
use mathlib.Core.Path.{subst}
use saas_ntier_lab.Prelude.{String, ◌≡◌, refl, ◌∙◌, Option, none, some, arith, if◌then◌else◌}
use saas_ntier_lab.Errors.{ok}
use saas_ntier_lab.Store
use saas_ntier_lab.Store.{Row, Fields, Status, Desired, merge, fresh, no_fields}
use saas_ntier_lab.Store.Versions.{stored}
use saas_ntier_lab.Observe.{Observed, as_json}
use saas_ntier_lab.Contract.{ContractResult}
use saas_ntier_lab.Exec.{Platform, World, store_upsert}
use saas_ntier_lab.Exec.Returns.{upsert-Returns, >>=-eq-ok}
use saas_ntier_lab.Reconcile.{Handlers, Report, gate_fields, row_or_absent, gate, settle}

-- The columns that a gated write leaves.
gated_columns :
    (now k : String) (before : Option Row) (o : Observed) (check : ContractResult) (r : Row)
    → r ≡ stored now k (gate_fields o check) before
    → (r.status ≡ (if check.ok then Status.active else Status.drift))
      × (r.error ≡ (if check.ok then none else some check.reason))
      × (r.observed_json ≡ some (as_json o))
unfolding fresh merge
gated_columns now k none o check r h = ground arith
gated_columns now k (some old) o check r h = ground arith

-- A write of the registry makes no call outside.
pub upsert-log :
    {p : Platform} (k : String) (f : Fields) (w : World p) → (store_upsert k f w).1.log ≡ w.log
unfolding store_upsert
upsert-log k f w = refl

module _ {p : Platform} (h : Handlers p) (k : String) where
  -- The row is in the registry with the status that the contract gives on what the observer has returned
  -- in this run: ACTIVE if it passes, DRIFT with its reason if not; and that observation is recorded.
  -- The observer was asked in the state `looked`, with the tenant's row of that state, or a bare one if
  -- there is none, and nothing
  -- outside the registry has been called since.
  pub record IsGated (r : Row) (w : World p) : Type 0 where
    pub looked : World p
    pub item : Row
    pub item_is : item ≡ row_or_absent k (Store.get looked.table k)
    pub observed : Observed
    pub seen : (h.observe k item looked).0 ≡ ok observed
    pub last : w.log ≡ (h.observe k item looked).1.log
    pub found : Store.get w.table k ≡ some r
    pub status :
        r.status ≡ (if (h.contract_fn k observed item).ok then Status.active else Status.drift)
    pub error : r.error ≡ (
        if (h.contract_fn k observed item).ok
        then none
        else some (h.contract_fn k observed item).reason)
    pub noted : r.observed_json ≡ some (as_json observed)

  -- The observer has returned `o` in the state `v`, asked with the tenant's row of that state, and the
  -- log is now as the observer has left it.
  pub record HasSeen (v : World p) (item : Row) (o : Observed) (w : World p) : Type 0 where
    pub item_is : item ≡ row_or_absent k (Store.get v.table k)
    pub seen : (h.observe k item v).0 ≡ ok o
    pub last : w.log ≡ (h.observe k item v).1.log

  gated :
      (o : Observed) (item r : Row) (v w : World p)
      → HasSeen v item o w
      → (store_upsert k (gate_fields o (h.contract_fn k o item)) w).0 ≡ ok r
      → IsGated r (store_upsert k (gate_fields o (h.contract_fn k o item)) w).1
  gated o item r v w look q =
      let f : Fields = gate_fields o (h.contract_fn k o item) in
      let s = (upsert-Returns k f).at w r q in
      let (a, b, c) = gated_columns s.now k s.before o (h.contract_fn k o item) r s.row in
      record {
        looked = v;
        item = item;
        item_is = look.item_is;
        observed = o;
        seen = look.seen;
        last = upsert-log k f w ∙ look.last;
        found = s.found;
        status = a;
        error = b;
        noted = c;
      }

  -- The report of a tenant that is to be ACTIVE.
  abbrev pub IsActiveReport : Report → World p → Type 0
  IsActiveReport (Report.gone _ _) w = ⊥
  IsActiveReport (Report.item r _) w = IsGated r w

  pub reported :
      (r : Row) (why : Option String) (b : Report) (w : World p)
      → ok (Report.item r why) ≡ ok b
      → IsGated r w
      → IsActiveReport b w
  reported r why b w q g =
      let same : Report.item r why ≡ b = cc in subst (λ x. IsActiveReport x w) same g

  pub gate_lem :
      (row r : Row) (w : World p)
      → row ≡ row_or_absent k (Store.get w.table k)
      → (gate h k row w).0 ≡ ok r
      → IsGated r (gate h k row w).1
  unfolding gate
  gate_lem row r w is q =
      let (o, seen, rest, e) = >>=-eq-ok (h.observe k row) _ w r q in
      rw e (gated o row r w _ (record { item_is = is; seen = seen; last = refl }) rest)

  pub settle_lem :
      (o : Observed) (row : Row) (why : String) (v w : World p) (b : Report)
      → HasSeen v row o w
      → (settle h Desired.active k o row why w).0 ≡ ok b
      → IsActiveReport b (settle h Desired.active k o row why w).1
  unfolding settle
  settle_lem o row why v w b look q =
      let (r, written, rest, e) =
        >>=-eq-ok (store_upsert k (gate_fields o (h.contract_fn k o row))) _ w b q in
      rw e (reported r none b _ rest (gated o row r v w look written))

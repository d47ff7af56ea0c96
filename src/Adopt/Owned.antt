-- ===== src/Adopt/Owned.antt =====
-- What `adopt_tenants` of control-plane/adopt.py leaves in the registry.
use mathlib.Core.Path.{subst}
use saas_ntier_lab.Prelude.{
  ℕ, String, ◌≡◌, refl, sym, ◌∙◌, Option, none, some, List, [], ◌∷◌, ◌==◌, All, arith, Bool-cases,
  inl, inr, eq_iff, or_else, ◌<>◌,
}
use saas_ntier_lab.Errors.{Result-cases, Result, ok, err}
use saas_ntier_lab.Ids.{validate_tenant_id}
use saas_ntier_lab.Store
use saas_ntier_lab.Store.{Row, Table, Owner, merge, fresh}
use saas_ntier_lab.Store.Laws.{get-upsert, upsert-err, id_of_get}
use saas_ntier_lab.Store.Versions.{stored, upsert-stored}
use saas_ntier_lab.Exec.{
  Platform, World, Outputs, Answer, AwsReply, done, client_error, AwsCall, pure, ◌>>=◌,
  store_upsert, store_get, tofu_outputs, aws_call,
}
use saas_ntier_lab.Exec.Keeps.{Keeps, Keeps-bind, Keeps-pure}
use saas_ntier_lab.Exec.Frame.{Tabled, tabled_rules}
use saas_ntier_lab.Exec.Returns.{
  Returns, Returns-bind, Returns-rest, Returns-pure, upsert-Returns, >>=-eq-ok,
}
use saas_ntier_lab.Identity.{tenant_secret, tenant_role}
use saas_ntier_lab.Adopt.{
  adopted_fields, adopt_row, adopt_role, adopt_valid, adopt_each, adopt_tenants, present, tag_next,
  add_row, needs_ids, chosen, known_url,
}

-- The registry has the tenant, as the control plane's, with its secret's name.
pub record IsOwned (o : Outputs) (k : String) (t : Table) : Type 0 where
  pub row : Row
  pub found : Store.get t k ≡ some row
  pub owned_by : row.owned_by ≡ some Owner.control_plane
  pub secret_name :
      row.secret_name ≡ some (or_else o.name_prefix "ntier-dev" <> "/rds/tenant-" <> k)

-- The registry has all these tenants so.
abbrev pub AllOwned : Outputs → List Row → Table → Type 0
AllOwned o rows t = All (λ (r : Row). IsOwned o r.id t) rows

adopted_row :
    (now k alb arn : String) (o : Outputs) (existing before : Option Row) (r : Row)
    → r ≡ stored now k (adopted_fields o alb k arn existing) before
    → (r.owned_by ≡ some Owner.control_plane) × (r.secret_name ≡ some (tenant_secret o k))
unfolding fresh merge
adopted_row now k alb arn o existing none r h = ground arith
adopted_row now k alb arn o existing (some old) r h = ground arith

module _ (p : Platform) (tofu_dir : String) (o : Outputs) (alb : String) where
  -- A write of another adoption leaves an adopted tenant one.
  written :
      (now tid k arn : String) (existing : Option Row) (t : Table)
      → IsOwned o k t
      → IsOwned o k (Store.upsert now tid none (adopted_fields o alb tid arn existing) t).1
  written now tid k arn existing t h =
      let f = adopted_fields o alb tid arn existing in
      elim (Result-cases (Store.upsert now tid none f t).0) [
        | inl (r, e) ↦
            let read = get-upsert now tid none f t r k e in
            elim (Bool-cases (tid == k)) [
              | inl same ↦
                  let is : tid ≡ k = (eq_iff tid k).0 same in
                  let (own, secret) =
                    adopted_row now tid alb arn o existing _ r
                      (upsert-stored now tid none f t r e) in
                  record {
                    row = r;
                    found = read ∙ rw same refl;
                    owned_by = own;
                    secret_name = secret ∙ rw is refl;
                  }
              | inr other ↦ record {
                row = h.row;
                found = read ∙ rw other h.found;
                owned_by = h.owned_by;
                secret_name = h.secret_name;
              }
            ]
        | inr (e, q) ↦ rw (upsert-err now tid none f t e q) h
      ]

  upsert-Keeps :
      (k tid arn : String) (existing : Option Row)
      → Keeps (Tabled p (IsOwned o k)) (store_upsert tid (adopted_fields o alb tid arn existing))
  unfolding store_upsert
  upsert-Keeps k tid arn existing = record {
    at = λ w h. record { holds = written (p.utcnow w.ext).0 tid k arn existing w.table h.holds };
  }

  present-Keeps :
      (k missing : String) (r : AwsReply)
      → Keeps (Tabled p (IsOwned o k)) (present p tofu_dir missing r)
  unfolding present
  present-Keeps k missing (done a) = search tabled_rules
  present-Keeps k missing (client_error code message) = search tabled_rules

  tag-Keeps :
      (k role tid : String) (r : AwsReply)
      → Keeps (Tabled p (IsOwned o k)) (tag_next p tofu_dir role tid r)
  unfolding tag_next
  tag-Keeps k role tid (done a) = search tabled_rules
  tag-Keeps k role tid (client_error code message) = search tabled_rules

  row-Keeps :
      (k tid : String) (a : Option Answer)
      → Keeps (Tabled p (IsOwned o k)) (adopt_row p tofu_dir o alb tid a)
  unfolding adopt_row
  row-Keeps k tid none = search tabled_rules
  row-Keeps k tid (some a) = search (tabled_rules, tag-Keeps, upsert-Keeps) depth 9

  role-Keeps :
      (k tid : String) (a : Option Answer)
      → Keeps (Tabled p (IsOwned o k)) (adopt_role p tofu_dir o alb tid a)
  unfolding adopt_role
  role-Keeps k tid none = search tabled_rules
  role-Keeps k tid (some a) = search (tabled_rules, present-Keeps, row-Keeps) depth 9

  valid-Keeps :
      (k : String) (v : Result String)
      → Keeps (Tabled p (IsOwned o k)) (adopt_valid p tofu_dir o alb v)
  unfolding adopt_valid
  valid-Keeps k (err e) = search tabled_rules
  valid-Keeps k (ok tid) = search (tabled_rules, present-Keeps, role-Keeps) depth 9

  each-Keeps :
      (k : String) (ids : List String)
      → Keeps (Tabled p (IsOwned o k)) (adopt_each p tofu_dir o alb ids)
  unfolding adopt_each
  each-Keeps k [] = search tabled_rules
  each-Keeps k (tid ∷ ids) =
      Keeps-bind (adopt_valid p tofu_dir o alb (validate_tenant_id (some tid))) _ (valid-Keeps k _)
        (λ item.
          Keeps-bind (adopt_each p tofu_dir o alb ids) _ (each-Keeps k ids) (λ rest. Keeps-pure _))

  -- A tenant that has been adopted, if it is not skipped, is in the registry so.
  Adopted : Option Row → World p → Type 0
  Adopted none w = Unit
  Adopted (some r) w = IsOwned o r.id w.table

  row-Returns :
      (tid : String) (a : Option Answer) → Returns Adopted (adopt_row p tofu_dir o alb tid a)
  unfolding adopt_row Adopted
  row-Returns tid none = Returns-pure none (λ w. tt)
  row-Returns tid (some a) =
      Returns-rest (aws_call (AwsCall.tag_secret (tenant_secret o tid) tid)) _ (λ tagged.
        Returns-rest (tag_next p tofu_dir (tenant_role o tid) tid tagged) _ (λ _.
          Returns-rest (store_get tid) _ (λ existing.
            Returns-bind (store_upsert tid (adopted_fields o alb tid a.arn existing))
              (λ r. pure (some r)) (upsert-Returns tid (adopted_fields o alb tid a.arn existing))
              (λ r w s b h.
                let (own, secret) = adopted_row s.now tid alb a.arn o existing s.before r s.row in
                let named : r.id ≡ tid = id_of_get w.table tid r s.found in
                let is : some r ≡ b = cc in
                subst (λ x. Adopted x w) is
                  (subst (λ x. IsOwned o x w.table) (sym named)
                    (record { row = r; found = s.found; owned_by = own; secret_name = secret }))))))

  role-Returns :
      (tid : String) (a : Option Answer) → Returns Adopted (adopt_role p tofu_dir o alb tid a)
  unfolding adopt_role Adopted
  role-Returns tid none = Returns-pure none (λ w. tt)
  role-Returns tid (some a) =
      Returns-rest (aws_call (AwsCall.get_role (tenant_role o tid))) _ (λ reply.
        Returns-rest (present p tofu_dir "NoSuchEntity" reply) _ (λ role. row-Returns tid role))

  valid-Returns : (v : Result String) → Returns Adopted (adopt_valid p tofu_dir o alb v)
  unfolding adopt_valid Adopted
  valid-Returns (err e) = Returns-pure none (λ w. tt)
  valid-Returns (ok tid) =
      Returns-rest (aws_call (AwsCall.describe_secret (tenant_secret o tid))) _ (λ reply.
        Returns-rest (present p tofu_dir "ResourceNotFoundException" reply) _
          (λ secret. role-Returns tid secret))

  with_row :
      (item : Option Row) (rest : List Row) (w : World p)
      → Adopted item w
      → AllOwned o rest w.table
      → AllOwned o (add_row item rest) w.table
  unfolding Adopted
  with_row none rest w a all = all
  with_row (some r) rest w a all = (a, all)

  still :
      (item : Option Row) (ids : List String) (w : World p)
      → Adopted item w
      → Adopted item (adopt_each p tofu_dir o alb ids w).1
  unfolding Adopted
  still none ids w a = tt
  still (some r) ids w a = ((each-Keeps r.id ids).at w (record { holds = a })).holds

  each-Returns :
      (ids : List String)
      → Returns (λ rows w. AllOwned o rows w.table) (adopt_each p tofu_dir o alb ids)
  unfolding adopt_each
  each-Returns [] = Returns-pure [] (λ w. tt)
  each-Returns (tid ∷ ids) =
      Returns-bind (adopt_valid p tofu_dir o alb (validate_tenant_id (some tid))) _
        (valid-Returns (validate_tenant_id (some tid)))
        (λ item w a b h. elim (Result-cases (adopt_each p tofu_dir o alb ids w).0) [
          | inl (rest, e) ↦
              let is : add_row item rest ≡ b = cc (e, h) in
              rw e (
                subst (λ x. AllOwned o x (adopt_each p tofu_dir o alb ids w).1.table) is
                  (with_row item rest _ (still item ids w a) ((each-Returns ids).at w rest e)))
          | inr (e, q) ↦ cc
        ])

module _ (p : Platform) (tofu_dir : String) where
  -- What follows the reading of the outputs, with these outputs.
  rest-Returns :
      (pages : ℕ) (ids : List String) (o : Outputs)
      → Returns
          (λ rows (w : World p). AllOwned o rows w.table)
          (do
            alb ← known_url p tofu_dir o
            found ← chosen p tofu_dir pages o ids
            known ← needs_ids p tofu_dir found
            adopt_each p tofu_dir o alb known)
  rest-Returns pages ids o = Returns-rest (known_url p tofu_dir o) _ (λ alb.
      Returns-rest (chosen p tofu_dir pages o ids) _ (λ found.
        Returns-rest (needs_ids p tofu_dir found) _ (λ known. each-Returns p tofu_dir o alb known)))

  -- When adopting tenants returns, OpenTofu has answered its outputs in the state at the start, and each
  -- tenant that is returned is in the registry, is owned by the control plane, and has the name that
  -- these outputs give its own secret; a tenant that is adopted later does not change that.
  pub adopt_tenants_owns :
      (pages : ℕ) (ids : List String) (w : World p) (rows : List Row)
      → (adopt_tenants p tofu_dir pages ids w).0 ≡ ok rows
      → (o : Outputs) × ((p.tofu_output w.ext).0 ≡ ok o)
        × AllOwned o rows (adopt_tenants p tofu_dir pages ids w).1.table
  unfolding adopt_tenants
  adopt_tenants_owns pages ids w rows h =
      let (o, answered, rest, e) = >>=-eq-ok tofu_outputs _ w rows h in
      (o, unfold tofu_outputs in answered, rw e ((rest-Returns pages ids o).at _ rows rest))

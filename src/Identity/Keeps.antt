-- ===== src/Identity/Keeps.antt =====
-- `ensure_tenant_identity` of control-plane/aws_identity.py leaves the registry alone.
use saas_ntier_lab.Prelude.{ℕ, zero, suc, String, some, ◌<>◌}
use saas_ntier_lab.Errors.{Error, Kind}
use saas_ntier_lab.Ids.{validate_tenant_id}
use saas_ntier_lab.Errors.Retry.Keeps.{with_retry_keeps}
use saas_ntier_lab.Store.{Table}
use saas_ntier_lab.Exec.{
  Platform, Exec, lift, Outputs, AwsCall, AwsReply, Answer, done, client_error,
}
use saas_ntier_lab.Exec.Keeps.{Keeps, Keeps-bind, Keeps-raise, Keeps-if, Keeps-lift, Keeps-pure}
use saas_ntier_lab.Exec.Frame.{Tabled, tabled_rules, choose-Tabled}
use saas_ntier_lab.Exec.Poll.{Polled, found, late, unfinished}
use saas_ntier_lab.Onboard.Keeps.{poll-Keeps}
use saas_ntier_lab.Identity.{
  password, answered, call, create_secret, gone_yet, waited, replace_pending, secret_described,
  create_missing_secret, create_missing_role, ensure_secret, ensure_role, make_identity,
  identity_once, ensure_tenant_identity, retry_wait, retried,
}

module _ {p : Platform} {Q : Table → Type 0} where
  password-Keeps : (n : ℕ) → Keeps (Tabled p Q) (password p n)
  unfolding password
  password-Keeps zero = search tabled_rules
  password-Keeps (suc n) =
      let rest = password-Keeps n in
      Keeps-bind _ _ (choose-Tabled _) (λ c. Keeps-bind _ _ rest (λ r. Keeps-pure (c <> r)))

  answered-Keeps : (r : AwsReply) → Keeps (Tabled p Q) (answered p r)
  unfolding answered
  answered-Keeps (done a) = search tabled_rules
  answered-Keeps (client_error code message) = search tabled_rules

  pub call-Keeps : (c : AwsCall) → Keeps (Tabled p Q) (call p c)
  unfolding call
  call-Keeps c = search (tabled_rules, answered-Keeps)

  create-Keeps : (name payload k : String) → Keeps (Tabled p Q) (create_secret p name payload k)
  unfolding create_secret
  create-Keeps name payload k = search (tabled_rules, call-Keeps)

  gone-Keeps : (r : AwsReply) → Keeps (Tabled p Q) (gone_yet p r)
  unfolding gone_yet
  gone-Keeps (done a) = search tabled_rules
  gone-Keeps (client_error code message) = search tabled_rules

  waited-Keeps : (r : Polled (Unit {0})) → Keeps (Tabled p Q) (waited p r)
  unfolding waited
  waited-Keeps (found a) = search tabled_rules
  waited-Keeps late = search tabled_rules
  waited-Keeps unfinished = search tabled_rules

  replace-Keeps : (name payload k : String) → Keeps (Tabled p Q) (replace_pending p name payload k)
  unfolding replace_pending
  replace-Keeps name payload k =
      search (tabled_rules, poll-Keeps, gone-Keeps, waited-Keeps, create-Keeps) depth 9

  described-Keeps :
      (name payload k : String) (a : Answer)
      → Keeps (Tabled p Q) (secret_described p name payload k a)
  unfolding secret_described
  described-Keeps name payload k a = search (tabled_rules, replace-Keeps)

  client-Keeps :
      {A : Type 0} (j : Kind) (f : String → Exec p A) (m : Exec p A)
      → ((code : String) → Keeps (Tabled p Q) (f code))
      → Keeps (Tabled p Q) m
      → Keeps (Tabled p Q) (elim j [ Kind.client_error code ↦ f code | _ ↦ m ])
  client-Keeps (Kind.client_error code) f m kf km = kf code
  client-Keeps _ f m kf km = km

  missing_secret-Keeps :
      (name payload k : String) (e : Error)
      → Keeps (Tabled p Q) (create_missing_secret p name payload k e)
  unfolding create_missing_secret
  missing_secret-Keeps name payload k e =
      client-Keeps e.kind _ _ (λ code. Keeps-if _ _ _ (create-Keeps _ _ _) (Keeps-raise e))
        (Keeps-raise e)

  missing_role-Keeps :
      (name trust k : String) (e : Error)
      → Keeps (Tabled p Q) (create_missing_role p name trust k e)
  unfolding create_missing_role
  missing_role-Keeps name trust k e =
      client-Keeps e.kind _ _ (λ code. search (tabled_rules, call-Keeps)) (Keeps-raise e)

  secret-Keeps : (name payload k : String) → Keeps (Tabled p Q) (ensure_secret p name payload k)
  unfolding ensure_secret
  secret-Keeps name payload k =
      search (tabled_rules, call-Keeps, described-Keeps, missing_secret-Keeps)

  role-Keeps : (name trust k : String) → Keeps (Tabled p Q) (ensure_role p name trust k)
  unfolding ensure_role
  role-Keeps name trust k = search (tabled_rules, call-Keeps, missing_role-Keeps)

  make-Keeps : (o : Outputs) (k : String) → Keeps (Tabled p Q) (make_identity p o k)
  unfolding make_identity
  make-Keeps o k =
      search (tabled_rules, call-Keeps, password-Keeps, secret-Keeps, role-Keeps) depth 14

  once-Keeps : (o : Outputs) (k : String) → Keeps (Tabled p Q) (identity_once p o k)
  unfolding identity_once
  once-Keeps o k = search (tabled_rules, make-Keeps)

  pub identity-Keeps :
      (o : Outputs) (k : String) → Keeps (Tabled p Q) (ensure_tenant_identity p o k)
  unfolding ensure_tenant_identity
  identity-Keeps o k = Keeps-bind (lift (validate_tenant_id (some k))) _ (Keeps-lift _) (λ k'.
      record {
        at =
            with_retry_keeps (identity_once p o k') (retried p) (retry_wait p) (Tabled p Q)
              (once-Keeps o k').at (λ n w h. record { holds = h.holds }) 5;
      })

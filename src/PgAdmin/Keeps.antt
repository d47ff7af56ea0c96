-- ===== src/PgAdmin/Keeps.antt =====
-- An invariant that the single calls keep is kept by `drop_postgres_role` of
-- control-plane/pg_admin.py.
use saas_ntier_lab.Prelude.{
  ℕ, zero, suc, String, Bool, true, false, Option, none, some, List, ◌∷◌, ltb, ◌+◌,
}
use saas_ntier_lab.Errors.{Result, Error}
use saas_ntier_lab.Exec.{
  Platform, World, Exec, Outputs, spawn, capture_of, feed_to, write_text, time_now, sleep_for,
}
use saas_ntier_lab.Exec.Keeps.{Keeps, keeps_rules, Keeps-bind}
use saas_ntier_lab.Exec.Poll.{Polled, found, late, unfinished, poll, look, decide}
use saas_ntier_lab.Shell.{raise_some}
use saas_ntier_lab.Lifecycle.Keeps.{run_ok-Keeps}
use saas_ntier_lab.Onboard.{run_checked, run_fed}
use saas_ntier_lab.PgAdmin.{
  Conditions, apply_json, job_conditions, call_quietly, ensure_migrator_sa, job_done, look_job,
  job_ended, await_job, clean_up, run_job, drop_by_job, drop_postgres_role, finally,
}

module _ {p : Platform} {P : World p → Type 0} where
  some-Keeps : (o : Option Error) → Keeps P (raise_some p o)
  unfolding raise_some
  some-Keeps none = search keeps_rules
  some-Keeps (some e) = search keeps_rules

  pub checked-Keeps : (cmd : List String) → Keeps P (spawn cmd) → Keeps P (run_checked p cmd)
  unfolding run_checked
  checked-Keeps cmd k = search (keeps_rules, some-Keeps)

  pub fed-Keeps :
      (cmd : List String) (text : String)
      → Keeps P (feed_to cmd text)
      → Keeps P (run_fed p cmd text)
  unfolding run_fed
  fed-Keeps cmd text k = search (keeps_rules, some-Keeps)

  looking :
      {A : Type 0} (pause : ℕ) (body : Exec p (Option A)) (again : Exec p (Polled A)) (b : Bool)
      → Keeps P (sleep_for pause)
      → Keeps P body
      → Keeps P again
      → Keeps P (look pause body again b)
  looking pause body again false ks kb ka = search keeps_rules
  looking {A} pause body again true ks kb ka = Keeps-bind body _ kb decides
    where
      decides : (o : Option A) → Keeps P (decide pause body again o)
      decides (some a) = search keeps_rules
      decides none = search keeps_rules

  polled :
      {A : Type 0} (pause : ℕ) (body : Exec p (Option A)) (fuel deadline : ℕ)
      → Keeps P time_now
      → Keeps P (sleep_for pause)
      → Keeps P body
      → Keeps P (poll pause body fuel deadline)
  unfolding poll
  polled pause body zero deadline kt ks kb = search keeps_rules
  polled pause body (suc fuel) deadline kt ks kb = Keeps-bind time_now _ kt (λ t.
      looking pause body (poll pause body fuel deadline) (ltb t deadline) ks kb
        (polled pause body fuel deadline kt ks kb))

  finally-Keeps :
      {A : Type 0} (m : Exec p A) (c : Exec p (Unit {0}))
      → Keeps P m
      → Keeps P c
      → Keeps P (finally m c)
  finally-Keeps m c km kc = record { at = λ w h. kc.at (m w).1 (km.at w h) }

  module _ (decode : String → Result Conditions) (tmp_dir : String) (times : Keeps P time_now)
      (sleeps : (n : ℕ) → Keeps P (sleep_for n))
      (writes : (f s : String) → Keeps P (write_text f s))
      (captures : (rest : List String) → Keeps P (capture_of ("kubectl" ∷ "-n" ∷ rest)))
      (spawns : (rest : List String) → Keeps P (spawn ("kubectl" ∷ "-n" ∷ rest)))
      (feeds : (text : String) → Keeps P (feed_to apply_json text)) where
    quiet-Keeps :
        (rest : List String) → Keeps P (call_quietly p decode tmp_dir ("kubectl" ∷ "-n" ∷ rest))
    unfolding call_quietly
    quiet-Keeps rest = search (keeps_rules, run_ok-Keeps, spawns)

    conditions-Keeps : (ns job : String) → Keeps P (job_conditions p decode tmp_dir ns job)
    unfolding job_conditions
    conditions-Keeps ns job = search (keeps_rules, captures) depth 9

    done-Keeps : (ns job : String) (c : Conditions) → Keeps P (job_done p decode tmp_dir ns job c)
    unfolding job_done
    done-Keeps ns job c = search (keeps_rules, quiet-Keeps) depth 9

    look-Keeps : (ns job : String) → Keeps P (look_job p decode tmp_dir ns job)
    unfolding look_job
    look-Keeps ns job = search (keeps_rules, conditions-Keeps, done-Keeps)

    ended-Keeps :
        (ns job : String) (r : Polled (Unit {0})) → Keeps P (job_ended p decode tmp_dir ns job r)
    unfolding job_ended
    ended-Keeps ns job (found a) = search keeps_rules
    ended-Keeps ns job late = search (keeps_rules, quiet-Keeps)
    ended-Keeps ns job unfinished = search keeps_rules

    await-Keeps :
        (ns job : String) (timeout deadline : ℕ)
        → Keeps P (await_job p decode tmp_dir ns job timeout deadline)
    unfolding await_job
    await-Keeps ns job timeout deadline =
        Keeps-bind (poll 5 (look_job p decode tmp_dir ns job) (timeout + 1) deadline) _
          (polled 5 (look_job p decode tmp_dir ns job) (timeout + 1) deadline times (sleeps 5)
            (look-Keeps ns job))
          (ended-Keeps ns job)

    clean-Keeps : (ns job cm : String) → Keeps P (clean_up p decode tmp_dir ns job cm)
    unfolding clean_up
    clean-Keeps ns job cm = search (keeps_rules, quiet-Keeps)

    job-Keeps :
        (ns job cm manifest : String) (timeout : ℕ)
        → Keeps P (run_job p decode tmp_dir ns job cm manifest timeout)
    unfolding run_job
    job-Keeps ns job cm manifest timeout =
        Keeps-bind (run_fed p apply_json manifest) _
          (fed-Keeps apply_json manifest (feeds manifest))
          (λ _. Keeps-bind time_now _ times (λ t.
            finally-Keeps (await_job p decode tmp_dir ns job timeout (t + timeout))
              (clean_up p decode tmp_dir ns job cm) (await-Keeps ns job timeout (t + timeout))
              (clean-Keeps ns job cm)))

    drop-Keeps :
        (ns k region master suffix : String) (timeout : ℕ)
        → Keeps P (drop_by_job p decode tmp_dir ns k region master suffix timeout)
    unfolding drop_by_job
    drop-Keeps ns k region master suffix timeout =
        search (keeps_rules, writes, checked-Keeps, spawns, job-Keeps) depth 9

    sa-Keeps : (o : Outputs) (k : String) → Keeps P (ensure_migrator_sa p decode tmp_dir o k)
    unfolding ensure_migrator_sa
    sa-Keeps o k = search (keeps_rules, fed-Keeps, feeds) depth 12

    pub drop_role-Keeps :
        (o : Outputs) (k : String) (timeout : ℕ)
        → Keeps P (drop_postgres_role p decode tmp_dir o k timeout)
    unfolding drop_postgres_role
    drop_role-Keeps o k timeout = search (keeps_rules, sa-Keeps, drop-Keeps) depth 14

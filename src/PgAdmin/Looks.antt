-- ===== src/PgAdmin/Looks.antt =====
-- The looks at the job of control-plane/pg_admin.py, and the loop around them.
use saas_ntier_lab.Prelude.{
  ℕ, zero, suc, ◌+◌, String, ◌≡◌, refl, Bool, true, false, Option, none, some, ltb, Bool-cases, inl,
  inr,
}
use saas_ntier_lab.Errors.{Result, ok, Error}
use saas_ntier_lab.Exec.{Platform, World, Exec, ◌>>=◌, lift, capture_of, time_now, sleep_for}
use saas_ntier_lab.Exec.Returns.{Returns, Returns-bind, Returns-rest, Returns-pure, Returns-if}
use saas_ntier_lab.Exec.Poll.{Polled, found, late, unfinished, poll, decide, look}
use saas_ntier_lab.Onboard.{check_error}
use saas_ntier_lab.PgAdmin.{
  Conditions, is_true, stdout_or, get_job, job_conditions, job_done, look_job, job_ended, await_job,
  call_quietly, job_logs,
}

module _ (p : Platform) (decode : String → Result Conditions) (tmp_dir : String) where
  -- `kubectl` has been asked for the job, and has answered with these conditions.
  pub record HasRead (ns job : String) (conds : Conditions) : Type 0 where
    pub ext : p.Ext
    pub ran : check_error (get_job ns job) (p.capture (get_job ns job) ext).0.0 ≡ none
    pub read : decode (p.capture (get_job ns job) ext).0.1 ≡ ok conds

  -- It has answered that the job is complete.
  pub record WasComplete (ns job : String) : Type 0 where
    pub conds : Conditions
    pub answer : HasRead ns job conds
    pub complete : is_true "Complete" conds ≡ true

  read_lem :
      (o : Option Error) (out : String) (w : World p) (conds : Conditions)
      → ((lift (stdout_or o out) >>= λ s. lift (decode s)) w).0 ≡ ok conds
      → (o ≡ none) × (decode out ≡ ok conds)
  read_lem none out w conds h = (refl, h)
  read_lem (some e) out w conds h = cc

  conditions-Returns :
      (ns job : String)
      → Returns
          (λ conds (w : World p). HasRead ns job conds)
          (job_conditions p decode tmp_dir ns job)
  unfolding job_conditions capture_of
  conditions-Returns ns job = record {
    at = λ w conds h.
        let answer = p.capture (get_job ns job) w.ext in
        let (ran, read) = read_lem (check_error (get_job ns job) answer.0.0) answer.0.1 _ conds h in
        record { ext = w.ext; ran = ran; read = read };
  }

  -- What a look says when it has found something
  Looked : String → String → Option (Unit {0}) → Type 0
  Looked ns job none = Unit
  Looked ns job (some a) = WasComplete ns job

  done-Returns :
      (ns job : String) (conds : Conditions)
      → HasRead ns job conds
      → Returns (λ o (w : World p). Looked ns job o) (job_done p decode tmp_dir ns job conds)
  unfolding job_done Looked
  done-Returns ns job conds read = elim (Bool-cases (is_true "Complete" conds)) [
    | inl t ↦ rw t (
        Returns-rest (call_quietly p decode tmp_dir (job_logs ns job)) _ (λ _.
          Returns-pure (some tt) (λ w. record { conds = conds; answer = read; complete = t })))
    | inr f ↦ rw f (
        Returns-if (is_true "Failed" conds) _ _
          (Returns-rest (call_quietly p decode tmp_dir (job_logs ns job)) _
            (λ _. record { at = λ w a h. cc }))
          (Returns-pure none (λ w. tt)))
  ]

  look-Returns :
      (ns job : String)
      → Returns (λ o (w : World p). Looked ns job o) (look_job p decode tmp_dir ns job)
  unfolding look_job
  look-Returns ns job =
      Returns-bind (job_conditions p decode tmp_dir ns job) _ (conditions-Returns ns job)
        (λ conds w read. (done-Returns ns job conds read).at w)

  LoopFound : String → String → Polled (Unit {0}) → Type 0
  LoopFound ns job (found a) = WasComplete ns job
  LoopFound ns job late = Unit
  LoopFound ns job unfinished = Unit

  looked-Returns :
      (ns job : String) (again : Exec p (Polled (Unit {0}))) (b : Bool)
      → Returns (λ r (w : World p). LoopFound ns job r) again
      → Returns
          (λ r (w : World p). LoopFound ns job r)
          (look 5 (look_job p decode tmp_dir ns job) again b)
  unfolding LoopFound
  looked-Returns ns job again false k = Returns-pure late (λ w. tt)
  looked-Returns ns job again true k =
      Returns-bind (look_job p decode tmp_dir ns job) _ (look-Returns ns job)
        (λ o w h. (decided o h).at w)
    where
      decided :
          (o : Option (Unit {0}))
          → Looked ns job o
          → Returns
              (λ r (w : World p). LoopFound ns job r)
              (decide 5 (look_job p decode tmp_dir ns job) again o)
      decided none h = Returns-rest (sleep_for 5) _ (λ _. k)
      decided (some a) h = unfold Looked in Returns-pure (found a) (λ w. h)

  poll-Returns :
      (ns job : String) (fuel deadline : ℕ)
      → Returns
          (λ r (w : World p). LoopFound ns job r)
          (poll 5 (look_job p decode tmp_dir ns job) fuel deadline)
  unfolding poll LoopFound
  poll-Returns ns job zero deadline = Returns-pure unfinished (λ w. tt)
  poll-Returns ns job (suc fuel) deadline = Returns-rest time_now _ (λ t.
      looked-Returns ns job (poll 5 (look_job p decode tmp_dir ns job) fuel deadline)
        (ltb t deadline) (poll-Returns ns job fuel deadline))

  pub await-Returns :
      (ns job : String) (timeout deadline : ℕ)
      → Returns
          (λ a (w : World p). WasComplete ns job)
          (await_job p decode tmp_dir ns job timeout deadline)
  unfolding await_job
  await-Returns ns job timeout deadline =
      Returns-bind (poll 5 (look_job p decode tmp_dir ns job) (timeout + 1) deadline) _
        (poll-Returns ns job (timeout + 1) deadline) (λ r w h. (end r h).at w)
    where
      end :
          (r : Polled (Unit {0}))
          → LoopFound ns job r
          → Returns (λ a (w : World p). WasComplete ns job) (job_ended p decode tmp_dir ns job r)
      end (found a) h = unfold LoopFound job_ended in Returns-pure tt (λ w. h)
      end late h =
          unfold job_ended in
          Returns-rest (call_quietly p decode tmp_dir (job_logs ns job)) _
            (λ _. record { at = λ w a q. cc })
      end unfinished h = unfold job_ended in record { at = λ w a q. cc }

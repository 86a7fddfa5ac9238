-- ===== src/Worker/Processor/Outcome.antt =====
-- What the outcome of a job says of the run in the database.
use atoms_platform.Common.{
  ℕ, ◌≡◌, refl, Bool, true, false, Option, none, some, String, List, inl, inr, Bool-cases,
  if◌then◌else◌, ap, ltb, ◌&&◌, ◌||◌,
}
use atoms_platform.Store.{RunStatus, Db, Outcome, ok, thrown}
use atoms_platform.Worker.Errors.{ErrorNode, is_retryable_error}
use atoms_platform.Worker.Runs.{
  RunJob, RunExecutionRecord, RunClaimResult, ready, missing, stale, claim_run,
}
use atoms_platform.Worker.Runs.Ends.{HasEnded, Yields, complete_run-Yields, fail_run-Yields}
use atoms_platform.Worker.Jobs.{
  World, Result, returned, raised, Job, give, raise, ◌>>=◌, then_do, handle, catching, settle,
  transact,
}
use atoms_platform.Worker.Processor.{
  Processor, RunAttempt, ProcessRunResult, completed, failed, skipped_missing, skipped_stale,
  stopped, revoke_lease, revoke_quietly, fail_process, settle_failure, on_error, stopped_status,
  complete_process, after_validation, assess_with, build_and_validate, attempted, observe,
  finish_run, process_claim, process_valid, process,
}

-- What holds of a database where an outcome is answered; an error says nothing.
abbrev pub Tells : (ProcessRunResult → Db → Type 0) → Result ProcessRunResult × World → Type 0
Tells post (returned a, w) = post a w.db
Tells post (raised e, w) = Unit

-- The outcome of the `catch`: the run was not completed, and FAILED if the outcome says so.
abbrev AfterError : RunExecutionRecord → ProcessRunResult → Db → Type 0
AfterError run completed db = ⊥
AfterError run failed db = HasEnded run RunStatus.failed db
AfterError run (stopped status) db = Unit
AfterError run answer db = ⊥

-- The outcome of a validated run.
abbrev AfterPass : RunExecutionRecord → ProcessRunResult → Db → Type 0
AfterPass run completed db = HasEnded run RunStatus.completed db
AfterPass run failed db = HasEnded run RunStatus.failed db
AfterPass run (stopped status) db = Unit
AfterPass run answer db = ⊥

error_passes :
    (run : RunExecutionRecord) (o : Result ProcessRunResult × World)
    → Tells (AfterError run) o
    → Tells (AfterPass run) o
error_passes run (returned completed, w) h = absurd h
error_passes run (returned failed, w) h = h
error_passes run (returned skipped_missing, w) h = absurd h
error_passes run (returned skipped_stale, w) h = absurd h
error_passes run (returned (stopped s), w) h = h
error_passes run (raised e, w) h = h

Tells-then :
    {A : Type 0} (post : ProcessRunResult → Db → Type 0) (o : Result A × World)
    (f : A → Job ProcessRunResult)
    → ((a : A) (w : World) → Tells post (f a w))
    → Tells post (then_do f o)
Tells-then post (returned a, w) f h = h a w
Tells-then post (raised e, w) f h = tt

module _ (q : Processor) (run : RunExecutionRecord) where
  failed-Tells :
      (w : World) (db : Db) (o : Outcome (Bool × Db))
      → Yields run RunStatus.failed o
      → Tells (AfterError run) (
          then_do
            (λ done. give (if done then failed else stopped "stale"))
            (settle q.ports.connections w db o))
  unfolding give
  failed-Tells w db (ok (true, db')) h = h
  failed-Tells w db (ok (false, db')) h = tt
  failed-Tells w db (thrown e) h = tt

  settle_failure-Tells :
      (attempt : RunAttempt) (error : List ErrorNode) (o : Option String) (w : World)
      → Tells (AfterError run) (settle_failure q run attempt error o w)
  unfolding settle_failure fail_process give raise transact ◌>>=◌
  settle_failure-Tells attempt error (some status) w = tt
  settle_failure-Tells attempt error none w =
      elim (Bool-cases (is_retryable_error error && ltb attempt.attempt attempt.max_attempts)) [
        | inl again ↦ rw again tt
        | inr last ↦ rw last (
            let db = q.ports.connections.others w.tick w.db in
            failed-Tells w db _
              (fail_run-Yields run (q.ports.to_worker_error error) (q.ports.clock w.tick) db))
      ]

  on_error-Tells :
      (attempt : RunAttempt) (lease : Option ℕ) (error : List ErrorNode) (w : World)
      → Tells (AfterError run) (on_error q run attempt lease error w)
  unfolding on_error ◌>>=◌
  on_error-Tells attempt lease error w =
      Tells-then (AfterError run) (revoke_quietly q lease w) _
        (λ u v. settle_failure-Tells attempt error (stopped_status error) v)

  completed-Tells :
      (lease : Option ℕ) (w : World) (db : Db) (o : Outcome (Bool × Db))
      → Yields run RunStatus.completed o
      → Tells (AfterPass run) (
          then_do
            (λ done.
              if done then give completed else revoke_lease q lease >>= λ u. give (stopped "stale"))
            (settle q.ports.connections w db o))
  unfolding give ◌>>=◌
  completed-Tells lease w db (ok (true, db')) h = h
  completed-Tells lease w db (ok (false, db')) h =
      Tells-then (AfterPass run) (revoke_lease q lease _) _ (λ u v. tt)
  completed-Tells lease w db (thrown e) h = tt

  complete_process-Tells :
      (lease : Option ℕ) (w : World) → Tells (AfterPass run) (complete_process q run lease w)
  unfolding complete_process transact ◌>>=◌
  complete_process-Tells lease w =
      let db = q.ports.connections.others w.tick w.db in
      completed-Tells lease w db _ (complete_run-Yields run (q.ports.clock w.tick) db)

  handled-Tells :
      (o : Result ProcessRunResult × World) (h : List ErrorNode → Job ProcessRunResult)
      → Tells (AfterPass run) o
      → ((e : List ErrorNode) (w : World) → Tells (AfterError run) (h e w))
      → Tells (AfterPass run) (handle h o)
  handled-Tells (returned a, w) h told rescue = told
  handled-Tells (raised e, w) h told rescue = error_passes run (h e w) (rescue e w)

  after_validation-Tells :
      (attempt : RunAttempt) (lease : Option ℕ) (validated : ℕ) (w : World)
      → Tells (AfterPass run) (after_validation q run attempt lease validated w)
  unfolding after_validation catching ◌>>=◌
  after_validation-Tells attempt lease validated w =
      handled-Tells _ (on_error q run attempt lease)
        (Tells-then (AfterPass run) (assess_with q.assessor run validated w) _
          (λ u v. complete_process-Tells lease v))
        (on_error-Tells attempt lease)

module _ (q : Processor) (others : Db → Db) (job : RunJob) (attempt : RunAttempt) (w : World) where
  -- The claim of the job.
  abbrev pub claim_of : Result RunClaimResult × World
  claim_of = transact q.ports.connections (claim_run others job (q.ports.clock w.tick)) w

  -- What each outcome means: a job is skipped as its claim says; a run is completed only if it was
  -- claimed and its graph and its validation ended without an error, and then its row is COMPLETED, one
  -- control version after the claimed one; where the outcome is failed, the row is FAILED likewise.
  abbrev pub Explains : ProcessRunResult → Db → Type 0
  Explains skipped_missing db = claim_of.0 ≡ returned missing
  Explains skipped_stale db =
      (status : RunStatus) × (version : ℕ) × (claim_of.0 ≡ returned (stale status version))
  Explains completed db =
      (run : RunExecutionRecord) × (v : World) × (passed : Option ℕ × ℕ) × (claim_of
        ≡ (returned (ready run), v))
      × ((build_and_validate q job run attempt.attempt v).0 ≡ returned passed)
      × HasEnded run RunStatus.completed db
  Explains failed db =
      (run : RunExecutionRecord) × (v : World) × (claim_of ≡ (returned (ready run), v))
      × HasEnded run RunStatus.failed db
  Explains (stopped status) db =
      (run : RunExecutionRecord) × (v : World) × (claim_of ≡ (returned (ready run), v))

  module _ (run : RunExecutionRecord) (v : World)
      (held : claim_of ≡ (returned (ready run), v)) where
    error-Explains :
        (o : Result ProcessRunResult × World) → Tells (AfterError run) o → Tells Explains o
    error-Explains (returned completed, u) h = absurd h
    error-Explains (returned failed, u) h = (run, v, held, h)
    error-Explains (returned skipped_missing, u) h = absurd h
    error-Explains (returned skipped_stale, u) h = absurd h
    error-Explains (returned (stopped s), u) h = (run, v, held)
    error-Explains (raised e, u) h = tt

    pass-Explains :
        (passed : Option ℕ × ℕ) (o : Result ProcessRunResult × World)
        → (build_and_validate q job run attempt.attempt v).0 ≡ returned passed
        → Tells (AfterPass run) o
        → Tells Explains o
    pass-Explains passed (returned completed, u) built h = (run, v, passed, held, built, h)
    pass-Explains passed (returned failed, u) built h = (run, v, held, h)
    pass-Explains passed (returned skipped_missing, u) built h = absurd h
    pass-Explains passed (returned skipped_stale, u) built h = absurd h
    pass-Explains passed (returned (stopped s), u) built h = (run, v, held)
    pass-Explains passed (raised e, u) built h = tt

    built-Explains :
        (o : Result (Option ℕ × ℕ) × World)
        → (build_and_validate q job run attempt.attempt v).0 ≡ o.0
        → Tells Explains (then_do (finish_run q run attempt) (observe o))
    unfolding finish_run
    built-Explains (raised e, u) built = error-Explains _ (on_error-Tells q run attempt none e u)
    built-Explains (returned (lease, validated), u) built =
        pass-Explains (lease, validated) _ built
          (after_validation-Tells q run attempt lease validated u)

  claimed-Explains :
      (o : Result RunClaimResult × World)
      → claim_of ≡ o
      → Tells Explains (then_do (process_claim q job attempt) o)
  unfolding process_claim attempted give ◌>>=◌
  claimed-Explains (returned missing, v) held = ap (λ o. o.0) held
  claimed-Explains (returned (stale status version), v) held = (status, version, ap (λ o. o.0) held)
  claimed-Explains (returned (ready run), v) held =
      built-Explains run v held (build_and_validate q job run attempt.attempt v) refl
  claimed-Explains (raised e, v) held = tt

  pub process-Explains : Tells Explains (process q others job attempt w)
  unfolding process process_valid raise ◌>>=◌
  process-Explains =
      elim (Bool-cases (ltb attempt.attempt 1 || ltb attempt.max_attempts attempt.attempt)) [
        | inl invalid ↦ rw invalid tt
        | inr valid ↦ rw valid (claimed-Explains claim_of refl)
      ]

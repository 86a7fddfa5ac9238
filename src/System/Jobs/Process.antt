-- ===== src/System/Jobs/Process.antt =====
-- The processor as a history.
use atoms_platform.Common.{
  ℕ, zero, suc, ◌==◌, leb, ltb, ◌&&◌, ◌||◌, String, Bool, false, Option, none, some, List, [],
  length, is_some,
}
use atoms_platform.Store.{Json, Db}
use atoms_platform.Worker.Errors.{ErrorNode, find_run_stopped_error, is_retryable_error}
use atoms_platform.Worker.Runs.{RunJob, RunExecutionRecord, RunClaimResult, ready, missing, stale}
use atoms_platform.Worker.Calls.{finish, give_up, perform}
use atoms_platform.Worker.Jobs.{World, Job, Result, returned, raised}
use atoms_platform.Worker.Agents.{Outputs}
use atoms_platform.Worker.Processor.{
  Processor, Effect, effect, RepairInput, RunAttempt, unless_run_stopped, repair_with,
  repair_routes, repair_missing_routes, log_validation, validate_once, may_repair, repair_once,
  repair_and_retry, validate_loop, assess_with, revoke_lease, revoke_quietly, fail_process,
  settle_failure, on_error, complete_process, after_validation, build_and_validate, attempted,
  observe, finish_run, process_claim, process_valid, process, stopped_status, enough_fuel,
  initial_state, range_error,
}
use atoms_platform.Worker.Processor.Outcome.{Tells, Explains, process-Explains}
use atoms_platform.System.{History, work, claims, start}
use atoms_platform.System.Jobs.{
  Traced, give-Traced, raise-Traced, from_result-Traced, if-Traced, catching-Traced, bind-Traced,
  transact-Traced,
}
use atoms_platform.System.Jobs.Nodes.{
  parse_upstream_outputs-Traced, list_project_files-Steps, run_graph-Traced,
}

-- What holds of a collaborator where there is one.
abbrev pub OfSome : {A : Type 0} → (A → Type 0) → Option A → Type 0
OfSome P none = Unit {0}
OfSome P (some a) = P a

-- What a collaborator does to the database is a history.
abbrev pub Commits : {A : Type 0} → Effect A → Type 0
Commits e = (db : Db) → History db (e db).1

effect-Traced : {A : Type 0} (e : Effect A) → Commits e → Traced (effect e)
unfolding effect
effect-Traced e h = record { runs = λ w. h w.db }

unless_run_stopped-Traced :
    {A : Type 0} (a : A) (e : List ErrorNode) → Traced (unless_run_stopped a e)
unfolding unless_run_stopped
unless_run_stopped-Traced a e =
    if-Traced (is_some (find_run_stopped_error e)) _ _ (raise-Traced e) (give-Traced a)

repair_with-Traced :
    (o : Option (RepairInput → Effect Bool)) (i : RepairInput)
    → OfSome (λ repair. (i : RepairInput) → Commits (repair i)) o
    → Traced (repair_with o i)
repair_with-Traced none i h = give-Traced false
repair_with-Traced (some repair) i h = effect-Traced (repair i) (h i)

log_validation-Traced : (attempt : ℕ) → Traced (log_validation attempt)
unfolding log_validation
log_validation-Traced attempt = record { runs = λ w. start w.db }

validate_once-Traced :
    (o : Option (RunExecutionRecord → ℕ → Effect (Option ℕ))) (run : RunExecutionRecord)
    (attempt : ℕ)
    → OfSome
        (λ validate. (run : RunExecutionRecord) (attempt : ℕ) → Commits (validate run attempt))
        o
    → Traced (validate_once o run attempt)
unfolding validate_once
validate_once-Traced none run attempt h = give-Traced _
validate_once-Traced (some validate) run attempt h =
    bind-Traced _ _
      (bind-Traced _ _ (log_validation-Traced attempt) (λ logged. effect-Traced _ (h run attempt)))
      (λ lease. give-Traced _)

assess_with-Traced :
    (o : Option (RunExecutionRecord → ℕ → Effect (Unit {0}))) (run : RunExecutionRecord)
    (attempt : ℕ)
    → OfSome (λ assess. (run : RunExecutionRecord) (attempt : ℕ) → Commits (assess run attempt)) o
    → Traced (assess_with o run attempt)
assess_with-Traced none run attempt h = give-Traced tt
assess_with-Traced (some assess) run attempt h =
    catching-Traced _ _ (effect-Traced _ (h run attempt)) (λ e. give-Traced tt)

observe-History :
    {A : Type 0} (a : Db) (o : Result A × World) → History a o.1.db → History a (observe o).1.db
observe-History a (r, w) h = h

attempted-Traced : {A : Type 0} (m : Job A) → Traced m → Traced (attempted m)
unfolding attempted
attempted-Traced m h = record { runs = λ w. observe-History w.db (m w) (h.runs w) }

module _ (q : Processor)
    (others_commit : (tick : ℕ) (db : Db) → History db (q.ports.connections.others tick db))
    (validates : OfSome
      (λ validate. (run : RunExecutionRecord) (attempt : ℕ) → Commits (validate run attempt))
      q.validator)
    (revokes : (lease : ℕ) → Commits (q.revoke lease))
    (assesses : OfSome
      (λ assess. (run : RunExecutionRecord) (attempt : ℕ) → Commits (assess run attempt))
      q.assessor)
    (repairs : OfSome (λ repair. (i : RepairInput) → Commits (repair i)) q.repairer) where
  repair_routes-Traced :
      (run : RunExecutionRecord) (upstream : Outputs) (o : Option Json)
      → Traced (repair_routes q run upstream o)
  unfolding repair_routes
  repair_routes-Traced run upstream none = give-Traced 0
  repair_routes-Traced run upstream (some bob) =
      bind-Traced _ _
        (transact-Traced q.ports.connections _ others_commit
          (list_project_files-Steps q.ports others_commit run.project_id))
        λ files. bind-Traced _ _ (from_result-Traced _) λ absent.
          if-Traced (length absent == 0) _ _ (give-Traced 0)
            (bind-Traced _ _ (repair_with-Traced q.repairer _ repairs) (λ repaired. give-Traced _))

  repair_missing_routes-Traced :
      (run : RunExecutionRecord) (outputs : Outputs) → Traced (repair_missing_routes q run outputs)
  unfolding repair_missing_routes
  repair_missing_routes-Traced run outputs =
      if-Traced (is_some q.repairer && leb 1 q.max_repair_attempts) _ _
        (catching-Traced _ _
          (bind-Traced _ _ (parse_upstream_outputs-Traced q.ports others_commit outputs)
            (λ upstream. repair_routes-Traced run upstream _))
          (unless_run_stopped-Traced 0))
        (give-Traced 0)

  repair_once-Traced :
      (run : RunExecutionRecord) (outputs : Outputs) (done : ℕ) (error : List ErrorNode)
      → Traced (repair_once q run outputs done error)
  unfolding repair_once
  repair_once-Traced run outputs done error =
      catching-Traced _ _
        (bind-Traced _ _ (parse_upstream_outputs-Traced q.ports others_commit outputs)
          (λ upstream. repair_with-Traced q.repairer _ repairs))
        (unless_run_stopped-Traced false)

  repair_and_retry-Traced :
      (run : RunExecutionRecord) (outputs : Outputs) (done : ℕ) (retry : Job (Option ℕ × ℕ))
      (error : List ErrorNode)
      → Traced retry
      → Traced (repair_and_retry q run outputs done retry error)
  unfolding repair_and_retry
  repair_and_retry-Traced run outputs done retry error h =
      if-Traced (may_repair q done error) _ _
        (bind-Traced _ _ (repair_once-Traced run outputs done error)
          (λ repaired. if-Traced repaired _ _ h (raise-Traced error)))
        (raise-Traced error)

  validate_loop-Traced :
      (fuel : ℕ) (run : RunExecutionRecord) (outputs : Outputs) (attempt done : ℕ)
      → Traced (validate_loop fuel q run outputs attempt done)
  unfolding validate_loop
  validate_loop-Traced zero run outputs attempt done = raise-Traced []
  validate_loop-Traced (suc fuel) run outputs attempt done =
      catching-Traced _ _ (validate_once-Traced q.validator run _ validates) λ error.
        repair_and_retry-Traced run outputs done _ error
          (validate_loop-Traced fuel run outputs attempt (suc done))

  revoke_lease-Traced : (lease : Option ℕ) → Traced (revoke_lease q lease)
  unfolding revoke_lease
  revoke_lease-Traced none = give-Traced tt
  revoke_lease-Traced (some lease) = effect-Traced _ (revokes lease)

  revoke_quietly-Traced : (lease : Option ℕ) → Traced (revoke_quietly q lease)
  unfolding revoke_quietly
  revoke_quietly-Traced lease =
      catching-Traced _ _ (revoke_lease-Traced lease) (λ e. give-Traced tt)

  fail_process-Traced :
      (run : RunExecutionRecord) (error : List ErrorNode) → Traced (fail_process q run error)
  unfolding fail_process perform
  fail_process-Traced run error = record {
    runs = λ w.
        (bind-Traced _ _
            (transact-Traced q.ports.connections _ others_commit (record {
              runs = λ db.
                  work q.ports.parsers
                    (give_up run.id run.control_version (q.ports.to_worker_error error)
                      (q.ports.clock w.tick))
                    db;
            }))
            (λ done. give-Traced _)).runs
          w;
  }

  settle_failure-Traced :
      (run : RunExecutionRecord) (attempt : RunAttempt) (error : List ErrorNode) (o : Option String)
      → Traced (settle_failure q run attempt error o)
  unfolding settle_failure
  settle_failure-Traced run attempt error none =
      if-Traced (is_retryable_error error && ltb attempt.attempt attempt.max_attempts) _ _
        (raise-Traced error) (fail_process-Traced run error)
  settle_failure-Traced run attempt error (some status) = give-Traced _

  on_error-Traced :
      (run : RunExecutionRecord) (attempt : RunAttempt) (lease : Option ℕ) (error : List ErrorNode)
      → Traced (on_error q run attempt lease error)
  unfolding on_error
  on_error-Traced run attempt lease error =
      bind-Traced _ _ (revoke_quietly-Traced lease)
        (λ revoked. settle_failure-Traced run attempt error (stopped_status error))

  complete_process-Traced :
      (run : RunExecutionRecord) (lease : Option ℕ) → Traced (complete_process q run lease)
  unfolding complete_process perform
  complete_process-Traced run lease = record {
    runs = λ w.
        (bind-Traced _ _
            (transact-Traced q.ports.connections _ others_commit (record {
              runs = λ db.
                  work q.ports.parsers (finish run.id run.control_version (q.ports.clock w.tick))
                    db;
            }))
            (λ done.
              if-Traced done _ _ (give-Traced _)
                (bind-Traced _ _ (revoke_lease-Traced lease) (λ revoked. give-Traced _)))).runs
          w;
  }

  after_validation-Traced :
      (run : RunExecutionRecord) (attempt : RunAttempt) (lease : Option ℕ) (validated : ℕ)
      → Traced (after_validation q run attempt lease validated)
  unfolding after_validation
  after_validation-Traced run attempt lease validated =
      catching-Traced _ _
        (bind-Traced _ _ (assess_with-Traced q.assessor run validated assesses)
          (λ looked. complete_process-Traced run lease))
        (on_error-Traced run attempt lease)

  build_and_validate-Traced :
      (job : RunJob) (run : RunExecutionRecord) (attempt : ℕ)
      → Traced (build_and_validate q job run attempt)
  unfolding build_and_validate
  build_and_validate-Traced job run attempt =
      bind-Traced _ _ (run_graph-Traced q.ports others_commit (initial_state q job run)) λ final.
        bind-Traced _ _ (repair_missing_routes-Traced run final.outputs)
          λ done. validate_loop-Traced (enough_fuel q) run final.outputs attempt done

  finish_run-Traced :
      (run : RunExecutionRecord) (attempt : RunAttempt) (r : Result (Option ℕ × ℕ))
      → Traced (finish_run q run attempt r)
  unfolding finish_run
  finish_run-Traced run attempt (raised error) = on_error-Traced run attempt none error
  finish_run-Traced run attempt (returned (lease, validated)) =
      after_validation-Traced run attempt lease validated

  process_claim-Traced :
      (job : RunJob) (attempt : RunAttempt) (c : RunClaimResult)
      → Traced (process_claim q job attempt c)
  unfolding process_claim
  process_claim-Traced job attempt missing = give-Traced _
  process_claim-Traced job attempt (stale status version) = give-Traced _
  process_claim-Traced job attempt (ready run) =
      bind-Traced _ _ (attempted-Traced _ (build_and_validate-Traced job run attempt.attempt))
        (finish_run-Traced run attempt)

  process_valid-Traced :
      (others : Db → Db)
      → ((db : Db) → History db (others db))
      → (job : RunJob) (attempt : RunAttempt) → Traced (process_valid q others job attempt)
  unfolding process_valid
  process_valid-Traced others commit job attempt = record {
    runs = λ w.
        (bind-Traced _ _
            (transact-Traced q.ports.connections _ others_commit
              (record { runs = λ db. claims others commit job (q.ports.clock w.tick) db }))
            (process_claim-Traced job attempt)).runs
          w;
  }

  -- Where other connections and the validator, the revocation of a lease, the assessor and the
  -- repairer commit histories, the whole of `process`, on every outcome and every error, takes the
  -- database along a history, and its outcome says what happened to the run: a job is skipped as its
  -- claim answers; completed means that the run was claimed, that its graph and its validation ended
  -- without an error, and that its row is COMPLETED, one control version after the claimed one; failed
  -- means that the row of the claimed run is FAILED likewise.
  pub process-Refines :
      (others : Db → Db)
      → ((db : Db) → History db (others db))
      → (job : RunJob) (attempt : RunAttempt) (w : World)
      → History w.db (process q others job attempt w).1.db
        × Tells (Explains q others job attempt w) (process q others job attempt w)
  unfolding process
  process-Refines others commit job attempt w = (
    (if-Traced (ltb attempt.attempt 1 || ltb attempt.max_attempts attempt.attempt) _ _
          (raise-Traced range_error) (process_valid-Traced others commit job attempt)).runs
        w,
    process-Explains q others job attempt w,
  )

-- ===== src/Worker/Processor.antt =====
-- apps/orchestrator-worker/src/processor.ts, with the failure of a validation as repair.ts reads it: a
-- job from its claim to its outcome.
pub mod Repairs
pub mod Assessor
pub mod Outcome
use atoms_platform.Common.{
  ℕ, zero, suc, ◌+◌, ◌-◌, ◌*◌, leb, ltb, String, Bool, true, false, not, ◌&&◌, ◌||◌, Option, none,
  some, List, [], ◌∷◌, ◌==◌, if◌then◌else◌, length, is_some, str_eq,
}
use atoms_platform.Store.{Agent, RunStatus, Json, File, Db, Tx}
use atoms_platform.Worker.Errors.{
  ErrorNode, ErrorClass, run_stopped, find_run_stopped_error, is_retryable_error,
}
use atoms_platform.Worker.Runs.{
  RunJob, RunExecutionRecord, RunClaimResult, ready, missing, stale, claim_run, complete_run,
  fail_run,
}
use atoms_platform.Worker.Jobs.{
  World, Result, returned, raised, Job, give, raise, from_result, ◌>>=◌, ◌>>◌, catching, transact,
}
use atoms_platform.Worker.Agents.{
  Ports, RunState, Outputs, output_of, parse_upstream_outputs, list_project_files,
}
use atoms_platform.Worker.Graph.{run_graph}

-- What a collaborator does: it reads and changes the database, and answers or throws.
abbrev pub Effect : Type 0 → Type 0
Effect A = Db → Result A × Db

unfoldable pub effect : {A : Type 0} → Effect A → Job A
effect e w = let (r, db) = e w.db in (r, record w { db = db })

pub record RepairInput : Type 0 where
  pub run : RunExecutionRecord
  pub step : String
  pub upstream_outputs : Outputs
  pub repair_attempt : ℕ

-- The optional collaborators of a processor. A lease is named by a number; the planned routes that
-- no file serves are those that route-coverage.ts finds.
pub record Processor : Type 0 where
  pub ports : Ports
  pub restored_outputs : ℕ → Outputs
  pub validator : Option (RunExecutionRecord → (attempt : ℕ) → Effect (Option ℕ))
  pub revoke : ℕ → Effect (Unit {0})
  pub assessor : Option (RunExecutionRecord → (attempt : ℕ) → Effect (Unit {0}))
  pub repairer : Option (RepairInput → Effect Bool)
  pub max_repair_attempts : ℕ
  pub missing_routes : Json → List File → Result (List String)

pub record RunAttempt : Type 0 where
  pub attempt : ℕ
  pub max_attempts : ℕ

pub data ProcessRunResult : Type 0 where
  completed failed skipped_missing skipped_stale : ProcessRunResult
  stopped : (status : String) → ProcessRunResult

abbrev pub repair_attempt_stride : ℕ
repair_attempt_stride = 100

abbrev pub route_coverage_step : String
route_coverage_step = "route-coverage"

-- `isRepairableValidationStep`
abbrev pub is_repairable_validation_step : String → Bool
is_repairable_validation_step step =
    str_eq step "install"
    || str_eq step "prisma-validate"
    || str_eq step "lint"
    || str_eq step "typecheck"
    || str_eq step "test"
    || str_eq step "build"
    || str_eq step route_coverage_step

-- `findValidationFailure`: the step of the first sandbox validation error, ten causes deep.
unfoldable pub failure_within : ℕ → List ErrorNode → Option String
failure_within zero chain = none
failure_within (suc depth) [] = none
failure_within (suc depth) (e ∷ causes) =
    let rest = failure_within depth causes in
    if str_eq e.name "SandboxValidationError" && is_some e.validation_step
    then e.validation_step
    else rest

unfoldable pub find_validation_failure : List ErrorNode → Option String
find_validation_failure chain = failure_within 10 chain

abbrev pub status_of_class : ErrorClass → Option String
status_of_class (run_stopped status) = some status
status_of_class _ = none

abbrev pub status_of_node : Option ErrorNode → Option String
status_of_node none = none
status_of_node (some e) = status_of_class e.class

-- The status of the error that `findRunStoppedError` finds.
abbrev pub stopped_status : List ErrorNode → Option String
stopped_status chain = status_of_node (find_run_stopped_error chain)

-- Errors of an advisory step are dropped unless the run was stopped.
unfoldable pub unless_run_stopped : {A : Type 0} → A → List ErrorNode → Job A
unless_run_stopped fallback error =
    if is_some (find_run_stopped_error error) then raise error else give fallback

abbrev pub repair_with : Option (RepairInput → Effect Bool) → RepairInput → Job Bool
repair_with none i = give false
repair_with (some repair) i = effect (repair i)

unfoldable pub repair_routes : Processor → RunExecutionRecord → Outputs → Option Json → Job ℕ
repair_routes q run upstream none = give 0
repair_routes q run upstream (some bob) = do
  files ← transact q.ports.connections (list_project_files q.ports.sort_by_path run.project_id)
  absent ← from_result (q.missing_routes bob files)
  if length absent == 0
      then give 0
      else repair_with q.repairer (record {
        run = run;
        step = route_coverage_step;
        upstream_outputs = upstream;
        repair_attempt = 1;
      })
        >>= λ repaired. give (if repaired then 1 else 0)

-- `#repairMissingRoutes`
unfoldable pub repair_missing_routes : Processor → RunExecutionRecord → Outputs → Job ℕ
repair_missing_routes q run outputs =
    if is_some q.repairer && leb 1 q.max_repair_attempts
    then (catching
        (parse_upstream_outputs q.ports outputs >>= λ upstream.
          repair_routes q run upstream (output_of Agent.bob upstream))
        (unless_run_stopped 0))
    else give 0

-- A validation under its attempt number, which the log keeps.
unfoldable pub log_validation : ℕ → Job (Unit {0})
log_validation attempt w = (returned tt, record w { validations = attempt ∷ w.validations })

unfoldable pub validate_once :
    Option (RunExecutionRecord → ℕ → Effect (Option ℕ))
    → RunExecutionRecord
    → ℕ
    → Job (Option ℕ × ℕ)
validate_once none run attempt = give (none, attempt)
validate_once (some validate) run attempt =
    log_validation attempt >> effect (validate run attempt) >>= λ lease. give (lease, attempt)

abbrev pub repairable : Option String → Bool
repairable none = false
repairable (some step) = is_repairable_validation_step step

abbrev pub may_repair : Processor → ℕ → List ErrorNode → Bool
may_repair q repairs error =
    is_some q.repairer
    && not (leb q.max_repair_attempts repairs)
    && repairable (find_validation_failure error)

abbrev pub step_of : Option String → String
step_of none = ""
step_of (some step) = step

-- One repair; its own error is dropped unless the run was stopped.
unfoldable pub repair_once :
    Processor → RunExecutionRecord → Outputs → ℕ → List ErrorNode → Job Bool
repair_once q run outputs repairs error =
    catching
      (parse_upstream_outputs q.ports outputs >>= λ upstream. repair_with q.repairer (record {
        run = run;
        step = step_of (find_validation_failure error);
        upstream_outputs = upstream;
        repair_attempt = suc repairs;
      }))
      (unless_run_stopped false)

unfoldable pub repair_and_retry :
    Processor
    → RunExecutionRecord
    → Outputs
    → ℕ
    → Job (Option ℕ × ℕ)
    → List ErrorNode
    → Job (Option ℕ × ℕ)
repair_and_retry q run outputs repairs retry error =
    if may_repair q repairs error
    then (repair_once q run outputs repairs error >>= λ repaired.
        (if repaired then retry else raise error))
    else raise error

-- The attempt number of a validation after so many repairs.
abbrev pub validated_attempt : (attempt repairs : ℕ) → ℕ
validated_attempt attempt repairs = attempt + repairs * repair_attempt_stride

-- The loop of validations and repairs: the lease, and the attempt that passed. Without fuel it gives
-- the error up.
unfoldable pub validate_loop :
    (fuel : ℕ)
    → Processor
    → RunExecutionRecord
    → Outputs
    → (attempt repairs : ℕ) → Job (Option ℕ × ℕ)
validate_loop zero q run outputs attempt repairs = raise []
validate_loop (suc fuel) q run outputs attempt repairs =
    catching (validate_once q.validator run (validated_attempt attempt repairs)) (
      repair_and_retry q run outputs repairs
        (validate_loop fuel q run outputs attempt (suc repairs)))

abbrev pub enough_fuel : Processor → ℕ
enough_fuel q = suc q.max_repair_attempts

abbrev pub assess_with :
    Option (RunExecutionRecord → ℕ → Effect (Unit {0})) → RunExecutionRecord → ℕ → Job (Unit {0})
assess_with none run attempt = give tt
assess_with (some assess) run attempt = catching (effect (assess run attempt)) (λ e. give tt)

unfoldable pub revoke_lease : Processor → Option ℕ → Job (Unit {0})
revoke_lease q none = give tt
revoke_lease q (some lease) = effect (q.revoke lease)

unfoldable pub revoke_quietly : Processor → Option ℕ → Job (Unit {0})
revoke_quietly q lease = catching (revoke_lease q lease) (λ e. give tt)

unfoldable pub fail_process : Processor → RunExecutionRecord → List ErrorNode → Job ProcessRunResult
fail_process q run error w =
    (transact q.ports.connections (
          fail_run run.id run.control_version (q.ports.to_worker_error error)
            (q.ports.clock w.tick))
        >>= λ done. give (if done then failed else stopped "stale"))
      w

unfoldable pub settle_failure :
    Processor
    → RunExecutionRecord
    → RunAttempt
    → List ErrorNode
    → Option String
    → Job ProcessRunResult
settle_failure q run attempt error (some status) = give (stopped status)
settle_failure q run attempt error none =
    if is_retryable_error error && ltb attempt.attempt attempt.max_attempts
    then raise error
    else fail_process q run error

-- The `catch` of `process`, with the lease that was held when the error was thrown.
unfoldable pub on_error :
    Processor → RunExecutionRecord → RunAttempt → Option ℕ → List ErrorNode → Job ProcessRunResult
on_error q run attempt lease error =
    revoke_quietly q lease >> settle_failure q run attempt error (stopped_status error)

unfoldable pub complete_process : Processor → RunExecutionRecord → Option ℕ → Job ProcessRunResult
complete_process q run lease w =
    (transact q.ports.connections (complete_run run.id run.control_version (q.ports.clock w.tick))
        >>= λ done.
            (if done then give completed else revoke_lease q lease >> give (stopped "stale")))
      w

-- What follows a passed validation, where the lease is held.
unfoldable pub after_validation :
    Processor → RunExecutionRecord → RunAttempt → Option ℕ → (validated : ℕ) → Job ProcessRunResult
after_validation q run attempt lease validated =
    catching (assess_with q.assessor run validated >> complete_process q run lease)
      (on_error q run attempt lease)

abbrev pub initial_state : Processor → RunJob → RunExecutionRecord → RunState
initial_state q job run = record {
  run_id = run.id;
  workspace_id = run.workspace_id;
  project_id = run.project_id;
  prompt = run.prompt;
  command = job.command;
  approval_scope = job.approval_scope;
  control_version = run.control_version;
  approval_bypass_consumed = false;
  outputs = q.restored_outputs run.id;
}

-- The graph and the validation: the lease and the attempt that passed.
unfoldable pub build_and_validate :
    Processor → RunJob → RunExecutionRecord → (attempt : ℕ) → Job (Option ℕ × ℕ)
build_and_validate q job run attempt = do
  final ← run_graph q.ports (initial_state q job run)
  repairs ← repair_missing_routes q run final.outputs
  validate_loop (enough_fuel q) q run final.outputs attempt repairs

-- What the caller of a step sees: the value or the error, as a value.
abbrev pub observe : {A : Type 0} → Result A × World → Result (Result A) × World
observe (r, w) = (returned r, w)

unfoldable pub attempted : {A : Type 0} → Job A → Job (Result A)
attempted m w = observe (m w)

unfoldable pub finish_run :
    Processor → RunExecutionRecord → RunAttempt → Result (Option ℕ × ℕ) → Job ProcessRunResult
finish_run q run attempt (raised error) = on_error q run attempt none error
finish_run q run attempt (returned (lease, validated)) =
    after_validation q run attempt lease validated

unfoldable pub process_claim :
    Processor → RunJob → RunAttempt → RunClaimResult → Job ProcessRunResult
process_claim q job attempt missing = give skipped_missing
process_claim q job attempt (stale status version) = give skipped_stale
process_claim q job attempt (ready run) =
    attempted (build_and_validate q job run attempt.attempt) >>= finish_run q run attempt

unfoldable pub process_valid : Processor → (Db → Db) → RunJob → RunAttempt → Job ProcessRunResult
process_valid q others job attempt w =
    (transact q.ports.connections (claim_run others job (q.ports.clock w.tick))
        >>= process_claim q job attempt)
      w

-- `new RangeError(...)`
abbrev pub range_error : List ErrorNode
range_error =
    record {
      class = ErrorClass.other;
      code = "";
      name = "RangeError";
      retryable = none;
      validation_step = none;
    }
    ∷ []

-- `process`; `others` is what other connections commit while the claim reads.
unfoldable pub process : Processor → (Db → Db) → RunJob → RunAttempt → Job ProcessRunResult
process q others job attempt =
    if ltb attempt.attempt 1 || ltb attempt.max_attempts attempt.attempt
    then raise range_error
    else process_valid q others job attempt

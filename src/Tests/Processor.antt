-- ===== src/Tests/Processor.antt =====
-- Processor: the theorems on validations, repairs and checks at work.
use atoms_platform.Common.{
  ℕ, ◌+◌, ◌≤◌, ◌<◌, ◌≡◌, ◌↔◌, refl, true, false, none, some, List, [], ◌∷◌, ◌++◌, arith, All,
}
use atoms_platform.Store.{RunStatus}
use atoms_platform.Worker.Errors.{ErrorClass, ErrorNode}
use atoms_platform.Worker.Runs.{RunExecutionRecord}
use atoms_platform.Worker.Jobs.{returned, raised, ◌>>=◌, catching, give, raise}
use atoms_platform.Worker.Agents.{
  parse_next, parse_agents, parse_upstream_outputs, has_text, given_urls, passes_seo_checks,
  SeoPackage,
}
use atoms_platform.Worker.Graph.Routes.{Distinct, passes_seo_checks_iff}
use atoms_platform.Worker.Previews.{preview_reopen_first_attempt}
use atoms_platform.Worker.Processor.{
  Processor, Effect, effect, validate_once, log_validation, repair_once, repair_and_retry,
  failure_within, find_validation_failure, validate_loop, enough_fuel, after_validation, RunAttempt,
}
use atoms_platform.Worker.Processor.Repairs.{
  attempts_from, validate_loop-Logs, validate_loop_ends, validate_loop-below_reopening,
}
use atoms_platform.Worker.Processor.Assessor.{assessed, after_validation-assessed}
use atoms_platform.Store.{Command, after}
use atoms_platform.Worker.Releases.{blocked, assessment_events, append_release_events}
use atoms_platform.System.Releases.{append_release_events-History}
use atoms_platform.Worker.Runs.{RunJob}
use atoms_platform.Worker.Processor.{process}
use atoms_platform.Worker.Processor.Outcome.{Tells, Explains}
use atoms_platform.System.{History, start}
use atoms_platform.System.Jobs.Process.{process-Refines}
use atoms_platform.Tests.Graph.{ports, before}

abbrev lint_failure : List ErrorNode
lint_failure =
    record {
      class = ErrorClass.other;
      code = "";
      name = "SandboxValidationError";
      retryable = some false;
      validation_step = some "lint";
    }
    ∷ []

-- Every validation fails at the lint step, and every repair writes files.
abbrev failing : Processor
failing = record {
  ports = ports;
  restored_outputs = λ run. [];
  validator = some (λ run attempt db. (raised lint_failure, db));
  revoke = λ lease db. (returned tt, db);
  assessor = none;
  repairer = some (λ i db. (returned true, db));
  max_repair_attempts = 2;
  missing_routes = λ bob files. returned [];
}

abbrev held : RunExecutionRecord
held = record {
  id = 1;
  workspace_id = 5;
  project_id = 9;
  status = RunStatus.running;
  prompt = "Build a shop";
  control_version = 1;
}

all_failed :
    validate_loop (enough_fuel failing) failing held [] 1 0 before
    ≡ (raised lint_failure, record before { validations = 201 ∷ 101 ∷ 1 ∷ [] })
unfolding validate_loop validate_once log_validation effect repair_and_retry repair_once catching
    ◌>>=◌ give raise parse_upstream_outputs parse_agents parse_next find_validation_failure
    failure_within
all_failed = refl

validate_loop-Logs_example :
    (n : ℕ) × (0 + n ≤ 3)
    × ((validate_loop (enough_fuel failing) failing held [] 1 0 before).1.validations
        ≡ attempts_from 1 0 n ++ [])
validate_loop-Logs_example =
    validate_loop-Logs failing held [] 1 (enough_fuel failing) 0 before (omega arith)

validate_loop_ends_example :
    validate_loop (enough_fuel failing + 5) failing held [] 1 0
    ≡ validate_loop (enough_fuel failing) failing held [] 1 0
validate_loop_ends_example = validate_loop_ends failing held [] 1 5 0

validate_loop-below_reopening_example :
    (used : List ℕ) × ((validate_loop
        (enough_fuel failing)
        failing
        held
        []
        1
        0
        before).1.validations
      ≡ used ++ [])
    × All (λ a. a < preview_reopen_first_attempt) used
validate_loop-below_reopening_example =
    validate_loop-below_reopening failing held [] 1 (enough_fuel failing) 0 before (omega arith)
      (omega arith) (omega arith)

-- The assessor of the worker: it stores the events of its assessment, which is BLOCKED.
abbrev looking : RunExecutionRecord → ℕ → Effect (Unit {0})
looking run attempt db = (
  returned tt,
  after db (append_release_events run.id (assessment_events 900 attempt (blocked 2) []) db),
)

abbrev last_try : RunAttempt
last_try = record { attempt = 1; max_attempts = 1 }

after_validation-assessed_example :
    after_validation (record failing { assessor = some looking }) held last_try (some 4) 1 before
    ≡ after_validation
        (record failing { assessor = none })
        held
        last_try
        (some 4)
        1
        (assessed looking held 1 before)
after_validation-assessed_example =
    after_validation-assessed looking failing held last_try (some 4) 1 before

abbrev seo : SeoPackage
seo = record {
  route_paths = "/" ∷ "/login" ∷ [];
  canonical_urls = some "https://a" ∷ none ∷ some "https://a" ∷ [];
}

passes_seo_checks_iff_example : (passes_seo_checks ("/" ∷ "/" ∷ []) seo ≡ true) ↔ (
    All (λ path. has_text path seo.route_paths ≡ true) ("/" ∷ "/" ∷ [])
    × Distinct (given_urls seo.canonical_urls))
passes_seo_checks_iff_example = passes_seo_checks_iff ("/" ∷ "/" ∷ []) seo

abbrev start_job : RunJob
start_job = record {
  run_id = 1;
  command = Command.start;
  control_version = 1;
  approval_scope = none;
}

abbrev judged : Processor
judged = record failing { assessor = some looking }

process-Refines_example :
    History before.db (process judged (λ db. db) start_job last_try before).1.db
    × Tells
        (Explains judged (λ db. db) start_job last_try before)
        (process judged (λ db. db) start_job last_try before)
process-Refines_example =
    process-Refines judged (λ tick db. start db) (λ run attempt db. start db) (λ lease db. start db)
      (λ run attempt db.
        append_release_events-History run.id (assessment_events 900 attempt (blocked 2) []) db)
      (λ i db. start db) (λ db. db) (λ db. start db) start_job last_try before

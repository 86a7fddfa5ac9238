-- ===== src/Worker/Sandboxes.antt =====
-- repository.ts: the sandbox session of a run's validation and the commands that ran in it.
pub mod Steps
pub mod Recording
use atoms_platform.Common.{
  ℕ, String, Bool, true, false, Option, none, some, ◌∷◌, [], ◌++◌, ◌==◌, leb, length, take,
  if◌then◌else◌, ◌&&◌, ◌||◌, not,
}
use atoms_platform.Common.Table.{lookup}
use atoms_platform.Store.{
  Json, Text, SandboxStatus, SandboxStep, CommandStatus, SandboxSession, SandboxCommand, Payload,
  Tx, ok, throw, unique_violation, pure, ◌>>=◌, ◌>>◌, touch_active_run, append_event, row_matches,
  update_session_if, update_session, session_of_attempt, external_taken, insert_session,
  upsert_command,
}
use atoms_platform.Worker.Runs.{RunExecutionRecord}

pub record CreateSandboxSessionInput : Type 0 where
  pub run : RunExecutionRecord
  pub external_id : String
  pub attempt : ℕ
  pub expires_at : ℕ
  pub now : ℕ

pub data SandboxSessionMutationResult : Type 0 where
  created : (sandbox_session_id : ℕ) → SandboxSessionMutationResult
  stopped : SandboxSessionMutationResult

abbrev pub new_session : CreateSandboxSessionInput → SandboxSession
new_session i = record {
  workspace_id = i.run.workspace_id;
  project_id = i.run.project_id;
  run_id = i.run.id;
  external_id = i.external_id;
  attempt = i.attempt;
  status = SandboxStatus.provisioning;
  expires_at = i.expires_at;
  error = none;
  terminated_at = none;
}

abbrev pub renew_session : CreateSandboxSessionInput → SandboxSession → SandboxSession
renew_session i s = record s {
  external_id = i.external_id;
  status = SandboxStatus.provisioning;
  expires_at = i.expires_at;
  error = none;
  terminated_at = none;
}

-- The `update` of the upsert, under the unique index on the external id.
unfoldable pub renew_existing : CreateSandboxSessionInput → ℕ → Tx SandboxSessionMutationResult
renew_existing i id db =
    (if external_taken (some id) i.external_id db.sandbox_sessions
        then throw unique_violation
        else update_session id (renew_session i) >> pure (created id))
      db

unfoldable pub upsert_session :
    (new_id : ℕ) → CreateSandboxSessionInput → Option ℕ → Tx SandboxSessionMutationResult
upsert_session new_id i none = do id ← insert_session new_id (new_session i); pure (created id)
upsert_session new_id i (some id) = renew_existing i id

unfoldable pub find_session_of : (run attempt : ℕ) → Tx (Option ℕ)
find_session_of run attempt db = ok (session_of_attempt run attempt db.sandbox_sessions, db)

-- `createSandboxSession`; `new_id` is the id that the database would choose.
unfoldable pub create_sandbox_session :
    (new_id : ℕ) → CreateSandboxSessionInput → Tx SandboxSessionMutationResult
create_sandbox_session new_id i = do
  alive ← touch_active_run i.run.id i.run.control_version i.now
  if alive then find_session_of i.run.id i.attempt >>= upsert_session new_id i else pure stopped

abbrev pub of_run : ℕ → SandboxSession → Bool
of_run run s = s.run_id == run

abbrev pub validating_session : SandboxSession → SandboxSession
validating_session s = record s { status = SandboxStatus.validating }

unfoldable pub restore_active : (run session : ℕ) → Tx Bool
restore_active run session = do
  updated ← update_session_if session (of_run run) validating_session
  if updated then append_event run (Payload.sandbox_ready session) >> pure true else pure false

-- `markSandboxFilesRestored`
unfoldable pub mark_sandbox_files_restored : (run version session now : ℕ) → Tx Bool
mark_sandbox_files_restored run version session now = do
  alive ← touch_active_run run version now
  if alive then restore_active run session else pure false

pub record SandboxStepResult : Type 0 where
  pub ordinal : ℕ
  pub name : SandboxStep
  pub command : String
  pub exit_code : ℕ
  pub stdout : Text
  pub stderr : Text
  pub duration_ms : ℕ
  pub started_at : ℕ
  pub completed_at : ℕ

pub record RecordSandboxCommandInput : Type 0 where
  pub run_id : ℕ
  pub expected_control_version : ℕ
  pub sandbox_session_id : ℕ
  pub step : SandboxStepResult
  pub now : ℕ

abbrev pub maximum_length : ℕ
maximum_length = 64000

-- The code units of a line break and `[truncated]`.
abbrev pub truncation_mark : Text
truncation_mark = 10 ∷ 91 ∷ 116 ∷ 114 ∷ 117 ∷ 110 ∷ 99 ∷ 97 ∷ 116 ∷ 101 ∷ 100 ∷ 93 ∷ []

unfoldable pub truncate_diagnostic : Text → Text
truncate_diagnostic value =
    if leb (length value) maximum_length
    then value
    else take maximum_length value ++ truncation_mark

abbrev pub status_of_exit : ℕ → CommandStatus
status_of_exit code = if code == 0 then CommandStatus.succeeded else CommandStatus.failed

-- The row of a step; its name is the step's, in upper case with `_` for `-`.
abbrev pub command_row : RecordSandboxCommandInput → SandboxCommand
command_row i = record {
  sandbox_session_id = i.sandbox_session_id;
  ordinal = i.step.ordinal;
  name = i.step.name;
  command = i.step.command;
  status = status_of_exit i.step.exit_code;
  exit_code = i.step.exit_code;
  stdout = truncate_diagnostic i.step.stdout;
  stderr = truncate_diagnostic i.step.stderr;
  duration_ms = i.step.duration_ms;
  started_at = i.step.started_at;
  completed_at = i.step.completed_at;
}

abbrev pub progress_of : RecordSandboxCommandInput → Payload
progress_of i =
    Payload.task_progress i.sandbox_session_id i.step.ordinal i.step.name
      (status_of_exit i.step.exit_code) i.step.exit_code i.step.duration_ms
      (truncate_diagnostic i.step.stdout) (truncate_diagnostic i.step.stderr)

-- `findFirst` on sandbox_sessions by id and run.
unfoldable pub session_belongs : (session run : ℕ) → Tx Bool
session_belongs session run db =
    ok (row_matches (of_run run) (lookup session db.sandbox_sessions), db)

unfoldable pub record_active : RecordSandboxCommandInput → Tx Bool
record_active i = do
  found ← session_belongs i.sandbox_session_id i.run_id
  if found
      then upsert_command (command_row i) >> append_event i.run_id (progress_of i) >> pure true
      else pure false

-- `recordSandboxCommand`
unfoldable pub record_sandbox_command : RecordSandboxCommandInput → Tx Bool
record_sandbox_command i = do
  alive ← touch_active_run i.run_id i.expected_control_version i.now
  if alive then record_active i else pure false

abbrev pub failed_session : Json → ℕ → SandboxSession → SandboxSession
failed_session error now s = record s {
  status = SandboxStatus.failed;
  error = some error;
  terminated_at = some now;
}

-- `markSandboxFailed`
unfoldable pub mark_sandbox_failed : (session : ℕ) → Json → (now : ℕ) → Tx (Unit {0})
mark_sandbox_failed session error now =
    update_session_if session (λ s. true) (failed_session error now) >>= λ updated. pure tt

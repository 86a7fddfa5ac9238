-- ===== src/Worker/Calls.antt =====
-- Every call that a worker makes on the shared database while it holds a run.
pub mod Fencing
use atoms_platform.Common.{ℕ, String, Bool, true, false, List, if◌then◌else◌}
use atoms_platform.Store.{ApprovalScope, ErrorJson, Db, Tx, pure, ◌>>=◌, after}
use atoms_platform.Worker.Runs.{request_approval, complete_run, fail_run}
use atoms_platform.Worker.Tasks.{
  PrepareTaskInput, TaskMutationResult, prepared, prepare_task, skip_task, start_task, fail_task,
}
use atoms_platform.Worker.Tasks
use atoms_platform.Worker.Patches.{GeneratedFile, ApplyResult, apply_generated_files}
use atoms_platform.Worker.Sandboxes.{
  CreateSandboxSessionInput, SandboxSessionMutationResult, created, RecordSandboxCommandInput,
  create_sandbox_session, mark_sandbox_files_restored, record_sandbox_command,
}
use atoms_platform.Worker.Previews.{RecordPreviewReadyInput, record_preview_ready}
use atoms_platform.Worker.Completion.{Parsers, CompleteTaskInput, CompleteTaskResult, complete_task}

pub data WorkerCall : Type 0 where
  prepare skip : (new_id : ℕ) → PrepareTaskInput → WorkerCall
  start : (run version task now : ℕ) → WorkerCall
  complete : (new_id : ℕ) → CompleteTaskInput → WorkerCall
  apply_files : (run version : ℕ) → List GeneratedFile → (now : ℕ) → WorkerCall
  fail : (run version task : ℕ) → ErrorJson → (now : ℕ) → WorkerCall
  ask_approval : (run version : ℕ) → ApprovalScope → (reason : String) → (now : ℕ) → WorkerCall
  finish : (run version now : ℕ) → WorkerCall
  give_up : (run version : ℕ) → ErrorJson → (now : ℕ) → WorkerCall
  open_sandbox : (new_id : ℕ) → CreateSandboxSessionInput → WorkerCall
  restored : (run version session now : ℕ) → WorkerCall
  log_command : RecordSandboxCommandInput → WorkerCall
  show : RecordPreviewReadyInput → WorkerCall

-- The run and the control version that a call names.
abbrev pub call_run : WorkerCall → ℕ
call_run (prepare new_id i) = i.run_id
call_run (skip new_id i) = i.run_id
call_run (start run version task now) = run
call_run (complete new_id i) = i.run_id
call_run (apply_files run version fs now) = run
call_run (fail run version task error now) = run
call_run (ask_approval run version scope reason now) = run
call_run (finish run version now) = run
call_run (give_up run version error now) = run
call_run (open_sandbox new_id i) = i.run.id
call_run (restored run version session now) = run
call_run (log_command i) = i.run_id
call_run (show i) = i.run.id

abbrev pub call_version : WorkerCall → ℕ
call_version (prepare new_id i) = i.expected_control_version
call_version (skip new_id i) = i.expected_control_version
call_version (start run version task now) = version
call_version (complete new_id i) = i.expected_control_version
call_version (apply_files run version fs now) = version
call_version (fail run version task error now) = version
call_version (ask_approval run version scope reason now) = version
call_version (finish run version now) = version
call_version (give_up run version error now) = version
call_version (open_sandbox new_id i) = i.run.control_version
call_version (restored run version session now) = version
call_version (log_command i) = i.expected_control_version
call_version (show i) = i.run.control_version

abbrev pub task_accepted : TaskMutationResult → Bool
task_accepted (prepared t) = true
task_accepted TaskMutationResult.stopped = false

abbrev pub completion_accepted : CompleteTaskResult → Bool
completion_accepted CompleteTaskResult.stopped = false
completion_accepted _ = true

abbrev pub apply_accepted : ApplyResult → Bool
apply_accepted ApplyResult.stopped = false
apply_accepted _ = true

abbrev pub session_accepted : SandboxSessionMutationResult → Bool
session_accepted SandboxSessionMutationResult.stopped = false
session_accepted (created id) = true

-- The call as a transaction; false if the worker is told to stop.
unfoldable pub perform : Parsers → WorkerCall → Tx Bool
perform env (prepare new_id i) = do r ← prepare_task new_id i; pure (task_accepted r)
perform env (skip new_id i) = do r ← skip_task new_id i; pure (task_accepted r)
perform env (start run version task now) = do
  r ← start_task run version task now
  pure (task_accepted r)
perform env (complete new_id i) = do r ← complete_task env new_id i; pure (completion_accepted r)
perform env (apply_files run version fs now) = do
  r ← apply_generated_files run version fs now
  pure (apply_accepted r)
perform env (fail run version task error now) = fail_task run version task error now
perform env (ask_approval run version scope reason now) =
    request_approval run version scope reason now
perform env (finish run version now) = complete_run run version now
perform env (give_up run version error now) = fail_run run version error now
perform env (open_sandbox new_id i) = do
  r ← create_sandbox_session new_id i
  pure (session_accepted r)
perform env (restored run version session now) = mark_sandbox_files_restored run version session now
perform env (log_command i) = record_sandbox_command i
perform env (show i) = record_preview_ready i

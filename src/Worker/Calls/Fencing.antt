-- ===== src/Worker/Calls/Fencing.antt =====
-- Worker calls, the laws of the store, and a run that has moved on.
use atoms_platform.Common.{ℕ, ◌≡◌, Bool, false}
use atoms_platform.Common.Table.{lookup}
use atoms_platform.Store.{
  RunStatus, Db, Tx, ok, matches, at_version, update_run_if, touch_active_run, touch_miss, ◌>>=◌,
  bind_eq, update_run_if_miss, IsLawful, pure-IsLawful, bind-IsLawful,
}
use atoms_platform.Worker.Runs.{
  pause_at, complete_at, fail_at, request_approval, complete_run, fail_run,
}
use atoms_platform.Worker.Runs.Steps.{
  request_approval-IsLawful, complete_run-IsLawful, fail_run-IsLawful,
}
use atoms_platform.Worker.Tasks.{prepare_task, skip_task, start_task, fail_task}
use atoms_platform.Worker.Tasks.Steps.{
  prepare_task-IsLawful, skip_task-IsLawful, start_task-IsLawful, fail_task-IsLawful,
}
use atoms_platform.Worker.Patches.{apply_generated_files}
use atoms_platform.Worker.Patches.Steps.{apply_generated_files-IsLawful}
use atoms_platform.Worker.Completion.{Parsers, complete_task}
use atoms_platform.Worker.Completion.Steps.{complete_task-IsLawful}
use atoms_platform.Worker.Sandboxes.{
  create_sandbox_session, mark_sandbox_files_restored, record_sandbox_command,
}
use atoms_platform.Worker.Sandboxes.Steps.{
  create_sandbox_session-IsLawful, mark_sandbox_files_restored-IsLawful,
  record_sandbox_command-IsLawful,
}
use atoms_platform.Worker.Previews.{record_preview_ready}
use atoms_platform.Worker.Previews.Steps.{record_preview_ready-IsLawful}
use atoms_platform.Worker.Calls.{
  WorkerCall, prepare, skip, start, complete, apply_files, fail, ask_approval, finish, give_up,
  open_sandbox, restored, log_command, show, call_run, call_version, perform,
}

pub perform-IsLawful : (env : Parsers) (call : WorkerCall) → IsLawful (perform env call)
unfolding perform
perform-IsLawful env (prepare new_id i) =
    bind-IsLawful _ _ (prepare_task-IsLawful new_id i) λ r. pure-IsLawful _
perform-IsLawful env (skip new_id i) =
    bind-IsLawful _ _ (skip_task-IsLawful new_id i) λ r. pure-IsLawful _
perform-IsLawful env (start run version task now) =
    bind-IsLawful _ _ (start_task-IsLawful run version task now) λ r. pure-IsLawful _
perform-IsLawful env (complete new_id i) =
    bind-IsLawful _ _ (complete_task-IsLawful env new_id i) λ r. pure-IsLawful _
perform-IsLawful env (apply_files run version fs now) =
    bind-IsLawful _ _ (apply_generated_files-IsLawful run version fs now) λ r. pure-IsLawful _
perform-IsLawful env (fail run version task error now) =
    fail_task-IsLawful run version task error now
perform-IsLawful env (ask_approval run version scope reason now) =
    request_approval-IsLawful run version scope reason now
perform-IsLawful env (finish run version now) = complete_run-IsLawful run version now
perform-IsLawful env (give_up run version error now) = fail_run-IsLawful run version error now
perform-IsLawful env (open_sandbox new_id i) =
    bind-IsLawful _ _ (create_sandbox_session-IsLawful new_id i) λ r. pure-IsLawful _
perform-IsLawful env (restored run version session now) =
    mark_sandbox_files_restored-IsLawful run version session now
perform-IsLawful env (log_command i) = record_sandbox_command-IsLawful i
perform-IsLawful env (show i) = record_preview_ready-IsLawful i

-- The run is RUNNING at this control version.
abbrev pub holds : ℕ → ℕ → Db → Bool
holds run version db = matches (at_version RunStatus.running version) (lookup run db.runs)

touch_stops :
    {A : Type 0} (run version now : ℕ) (f : Bool → Tx A) (db : Db)
    → holds run version db ≡ false
    → (touch_active_run run version now >>= f) db ≡ f false db
touch_stops run version now f db h =
    bind_eq (touch_active_run run version now) f db (touch_miss run version now db h)

-- A worker call on a run that is not RUNNING at the version that the call names is told to stop, and
-- leaves the database as it is.
pub perform_fenced :
    (env : Parsers) (call : WorkerCall) (db : Db)
    → holds (call_run call) (call_version call) db ≡ false
    → perform env call db ≡ ok (false, db)
unfolding perform prepare_task skip_task start_task complete_task apply_generated_files fail_task
    request_approval complete_run fail_run create_sandbox_session mark_sandbox_files_restored
    record_sandbox_command record_preview_ready
perform_fenced env (prepare new_id i) db h =
    bind_eq (prepare_task new_id i) _ db
      (touch_stops i.run_id i.expected_control_version i.now _ db h)
perform_fenced env (skip new_id i) db h =
    bind_eq (skip_task new_id i) _ db (touch_stops i.run_id i.expected_control_version i.now _ db h)
perform_fenced env (start run version task now) db h =
    bind_eq (start_task run version task now) _ db (touch_stops run version now _ db h)
perform_fenced env (complete new_id i) db h =
    bind_eq (complete_task env new_id i) _ db
      (touch_stops i.run_id i.expected_control_version i.now _ db h)
perform_fenced env (apply_files run version fs now) db h =
    bind_eq (apply_generated_files run version fs now) _ db (touch_stops run version now _ db h)
perform_fenced env (fail run version task error now) db h = touch_stops run version now _ db h
perform_fenced env (ask_approval run version scope reason now) db h =
    bind_eq (update_run_if run (at_version RunStatus.running version) (pause_at now)) _ db
      (update_run_if_miss run _ _ db h)
perform_fenced env (finish run version now) db h =
    bind_eq (update_run_if run (at_version RunStatus.running version) (complete_at now)) _ db
      (update_run_if_miss run _ _ db h)
perform_fenced env (give_up run version error now) db h =
    bind_eq (update_run_if run (at_version RunStatus.running version) (fail_at error now)) _ db
      (update_run_if_miss run _ _ db h)
perform_fenced env (open_sandbox new_id i) db h =
    bind_eq (create_sandbox_session new_id i) _ db
      (touch_stops i.run.id i.run.control_version i.now _ db h)
perform_fenced env (restored run version session now) db h = touch_stops run version now _ db h
perform_fenced env (log_command i) db h =
    touch_stops i.run_id i.expected_control_version i.now _ db h
perform_fenced env (show i) db h = touch_stops i.run.id i.run.control_version i.now _ db h

-- ===== src/Worker/Tasks.antt =====
-- repository.ts: preparing, skipping, starting and failing an agent's task.
pub mod Steps
use atoms_platform.Common.{
  ℕ, suc, String, Bool, true, false, Option, none, some, ◌==◌, if◌then◌else◌,
}
use atoms_platform.Store.{
  Agent, TaskStatus, SkipReason, Task, Json, ErrorJson, Payload, Tx, pure, ◌>>=◌, ◌>>◌,
  touch_active_run, append_event, find_by_ordinal, find_task_or_throw, update_task, insert_task,
}

pub record WorkerTaskRecord : Type 0 where
  pub id : ℕ
  pub run_id : ℕ
  pub agent_name : Agent
  pub description : String
  pub ordinal : ℕ
  pub status : TaskStatus
  pub attempt : ℕ
  pub output : Option Json

abbrev pub to_worker_task_record : ℕ → Task → WorkerTaskRecord
to_worker_task_record id t = record {
  id = id;
  run_id = t.run_id;
  agent_name = t.agent_name;
  description = t.description;
  ordinal = t.ordinal;
  status = t.status;
  attempt = t.attempt;
  output = t.output;
}

pub data TaskMutationResult : Type 0 where
  prepared : WorkerTaskRecord → TaskMutationResult
  stopped : TaskMutationResult

pub record PrepareTaskInput : Type 0 where
  pub run_id : ℕ
  pub expected_control_version : ℕ
  pub agent_name : Agent
  pub description : String
  pub ordinal : ℕ
  pub input : Json
  pub now : ℕ
  pub skip_reason : Option SkipReason

-- The row that `create` stores, with the column defaults.
abbrev pub new_task : PrepareTaskInput → TaskStatus → Task
new_task i status = record {
  run_id = i.run_id;
  agent_name = i.agent_name;
  description = i.description;
  status = status;
  ordinal = i.ordinal;
  attempt = 0;
  input = some i.input;
  output = none;
  error = none;
  started_at = none;
  completed_at = none;
}

unfoldable pub create_task : ℕ → PrepareTaskInput → Tx TaskMutationResult
create_task new_id i = do
  task ← insert_task new_id (new_task i TaskStatus.pending)
  append_event i.run_id (Payload.task_created new_id task.agent_name task.ordinal task.description)
  pure (prepared (to_worker_task_record new_id task))

unfoldable pub prepare_existing : ℕ → PrepareTaskInput → Option (ℕ × Task) → Tx TaskMutationResult
unfolding create_task
prepare_existing new_id i (some (id, t)) = pure (prepared (to_worker_task_record id t))
prepare_existing new_id i none = create_task new_id i

unfoldable pub prepare_active : ℕ → PrepareTaskInput → Tx TaskMutationResult
unfolding prepare_existing
prepare_active new_id i = do
  existing ← find_by_ordinal i.run_id i.ordinal
  prepare_existing new_id i existing

-- `prepareTask`; the database gives a new row the id `new_id`.
unfoldable pub prepare_task : ℕ → PrepareTaskInput → Tx TaskMutationResult
unfolding prepare_active
prepare_task new_id i = do
  active ← touch_active_run i.run_id i.expected_control_version i.now
  if active then prepare_active new_id i else pure stopped

unfoldable pub create_skipped : ℕ → PrepareTaskInput → Tx TaskMutationResult
create_skipped new_id i = do
  task ← insert_task new_id (new_task i TaskStatus.skipped)
  append_event i.run_id
      (Payload.task_skipped new_id task.agent_name task.ordinal task.description i.skip_reason)
  pure (prepared (to_worker_task_record new_id task))

unfoldable pub skip_existing : ℕ → PrepareTaskInput → Option (ℕ × Task) → Tx TaskMutationResult
unfolding create_skipped
skip_existing new_id i (some (id, t)) = pure (prepared (to_worker_task_record id t))
skip_existing new_id i none = create_skipped new_id i

unfoldable pub skip_active : ℕ → PrepareTaskInput → Tx TaskMutationResult
unfolding skip_existing
skip_active new_id i = do
  existing ← find_by_ordinal i.run_id i.ordinal
  skip_existing new_id i existing

-- `skipTask`
unfoldable pub skip_task : ℕ → PrepareTaskInput → Tx TaskMutationResult
unfolding skip_active
skip_task new_id i = do
  active ← touch_active_run i.run_id i.expected_control_version i.now
  if active then skip_active new_id i else pure stopped

abbrev pub is_completed : TaskStatus → Bool
is_completed TaskStatus.completed = true
is_completed _ = false

abbrev pub start_at : ℕ → Task → Task
start_at now t = record t {
  status = TaskStatus.running;
  attempt = suc t.attempt;
  started_at = some now;
  completed_at = none;
  error = none;
}

unfoldable pub start_pending : (run task now : ℕ) → Tx TaskMutationResult
start_pending run task now = do
  t ← update_task task (start_at now)
  append_event run (Payload.task_started task t.agent_name t.ordinal t.attempt)
  pure (prepared (to_worker_task_record task t))

unfoldable pub start_active : (run task now : ℕ) → Tx TaskMutationResult
unfolding start_pending
start_active run task now = do
  current ← find_task_or_throw task
  if is_completed current.status
      then pure (prepared (to_worker_task_record task current))
      else start_pending run task now

-- `startTask`
unfoldable pub start_task : (run version task now : ℕ) → Tx TaskMutationResult
unfolding start_active
start_task run version task now = do
  active ← touch_active_run run version now
  if active then start_active run task now else pure stopped

abbrev pub fail_task_at : ErrorJson → ℕ → Task → Task
fail_task_at error now t = record t {
  status = TaskStatus.failed;
  error = some error;
  completed_at = some now;
}

unfoldable pub fail_active : (run task : ℕ) → ErrorJson → ℕ → Tx Bool
fail_active run task error now = do
  t ← update_task task (fail_task_at error now)
  append_event run (Payload.task_failed task t.agent_name t.ordinal t.attempt error)
  pure true

-- `failTask`: true for "failed", false for "stopped".
unfoldable pub fail_task : (run version task : ℕ) → ErrorJson → ℕ → Tx Bool
unfolding fail_active
fail_task run version task error now = do
  active ← touch_active_run run version now
  if active then fail_active run task error now else pure false

-- ===== src/Worker/Tasks/Steps.antt =====
-- The worker's operations on a task, and the laws of the store.
use atoms_platform.Common.{ℕ, Option, none, some}
use atoms_platform.Store.{
  Task, TaskStatus, ErrorJson, IsLawful, pure-IsLawful, if-IsLawful, bind-IsLawful,
  touch_active_run-IsLawful, find_by_ordinal-IsLawful, find_task_or_throw-IsLawful,
  insert_task-IsLawful, update_task-IsLawful,
}
use atoms_platform.Worker.Runs.Steps.{append_then-IsLawful}
use atoms_platform.Worker.Tasks.{
  PrepareTaskInput, create_task, prepare_existing, prepare_active, prepare_task, create_skipped,
  skip_existing, skip_active, skip_task, start_pending, start_active, start_task, start_at,
  fail_task_at, new_task, fail_active, fail_task,
}

module _ (new_id : ℕ) (i : PrepareTaskInput) where
  create_task-IsLawful : IsLawful (create_task new_id i)
  unfolding create_task
  create_task-IsLawful =
      bind-IsLawful _ _ (insert_task-IsLawful new_id (new_task i TaskStatus.pending))
        λ task. append_then-IsLawful i.run_id _ _ (pure-IsLawful _)

  prepare_existing-IsLawful :
      (existing : Option (ℕ × Task)) → IsLawful (prepare_existing new_id i existing)
  unfolding prepare_existing
  prepare_existing-IsLawful (some (id, t)) = pure-IsLawful _
  prepare_existing-IsLawful none = create_task-IsLawful

  prepare_active-IsLawful : IsLawful (prepare_active new_id i)
  unfolding prepare_active
  prepare_active-IsLawful =
      bind-IsLawful _ _ (find_by_ordinal-IsLawful i.run_id i.ordinal) prepare_existing-IsLawful

  pub prepare_task-IsLawful : IsLawful (prepare_task new_id i)
  unfolding prepare_task
  prepare_task-IsLawful =
      bind-IsLawful _ _ (touch_active_run-IsLawful i.run_id i.expected_control_version i.now)
        λ active. if-IsLawful active prepare_active-IsLawful (pure-IsLawful _)

  create_skipped-IsLawful : IsLawful (create_skipped new_id i)
  unfolding create_skipped
  create_skipped-IsLawful =
      bind-IsLawful _ _ (insert_task-IsLawful new_id (new_task i TaskStatus.skipped))
        λ task. append_then-IsLawful i.run_id _ _ (pure-IsLawful _)

  skip_existing-IsLawful :
      (existing : Option (ℕ × Task)) → IsLawful (skip_existing new_id i existing)
  unfolding skip_existing
  skip_existing-IsLawful (some (id, t)) = pure-IsLawful _
  skip_existing-IsLawful none = create_skipped-IsLawful

  skip_active-IsLawful : IsLawful (skip_active new_id i)
  unfolding skip_active
  skip_active-IsLawful =
      bind-IsLawful _ _ (find_by_ordinal-IsLawful i.run_id i.ordinal) skip_existing-IsLawful

  pub skip_task-IsLawful : IsLawful (skip_task new_id i)
  unfolding skip_task
  skip_task-IsLawful =
      bind-IsLawful _ _ (touch_active_run-IsLawful i.run_id i.expected_control_version i.now)
        λ active. if-IsLawful active skip_active-IsLawful (pure-IsLawful _)

start_pending-IsLawful : (run task now : ℕ) → IsLawful (start_pending run task now)
unfolding start_pending
start_pending-IsLawful run task now =
    bind-IsLawful _ _ (update_task-IsLawful task (start_at now))
      λ t. append_then-IsLawful run _ _ (pure-IsLawful _)

start_active-IsLawful : (run task now : ℕ) → IsLawful (start_active run task now)
unfolding start_active
start_active-IsLawful run task now =
    bind-IsLawful _ _ (find_task_or_throw-IsLawful task)
      λ current. if-IsLawful _ (pure-IsLawful _) (start_pending-IsLawful run task now)

pub start_task-IsLawful : (run version task now : ℕ) → IsLawful (start_task run version task now)
unfolding start_task
start_task-IsLawful run version task now =
    bind-IsLawful _ _ (touch_active_run-IsLawful run version now)
      λ active. if-IsLawful active (start_active-IsLawful run task now) (pure-IsLawful _)

fail_active-IsLawful :
    (run task : ℕ) (error : ErrorJson) (now : ℕ) → IsLawful (fail_active run task error now)
unfolding fail_active
fail_active-IsLawful run task error now =
    bind-IsLawful _ _ (update_task-IsLawful task (fail_task_at error now))
      λ t. append_then-IsLawful run _ _ (pure-IsLawful _)

pub fail_task-IsLawful :
    (run version task : ℕ) (error : ErrorJson) (now : ℕ)
    → IsLawful (fail_task run version task error now)
unfolding fail_task
fail_task-IsLawful run version task error now =
    bind-IsLawful _ _ (touch_active_run-IsLawful run version now)
      λ active. if-IsLawful active (fail_active-IsLawful run task error now) (pure-IsLawful _)

-- ===== src/Control/Start.antt =====
-- app.ts of the control plane, the handler `createRun`: a run is created and its job queued.
pub mod Fresh
pub mod Queued
use atoms_platform.Common.{ℕ, String, Bool, true, false, Option, none, some, if◌then◌else◌, str_eq}
use atoms_platform.Store.{
  Command, Run, Db, DbError, Outcome, ok, thrown, not_found, unique_violation, fault, after,
}
use atoms_platform.Worker.Runs.{RunJob}
use atoms_platform.Control.Runs.{Handled, Request, refuse, run_reply, mark_run_failed}
use atoms_platform.Control.Creation.{
  CreateRunInput, CreateRunResult, project_not_found, idempotency_conflict, created,
  create_run_with_idempotency,
}

abbrev pub start_job : ℕ → Run → RunJob
start_job id r = record {
  run_id = id;
  command = Command.start;
  control_version = r.control_version;
  approval_scope = none;
}

-- The new run is queued, or marked as failed.
unfoldable pub enqueue_start : Request → ℕ → Run → Db → Handled
unfolding mark_run_failed
enqueue_start q id r db =
    if q.queue_accepts (start_job id r)
    then record { result = run_reply 201 r; queued = some (start_job id r); stored = db }
    else refuse 503 "RUN_QUEUE_UNAVAILABLE"
        (after db (mark_run_failed id r.control_version q.queue_error q.now db))

unfoldable pub start_created : Request → CreateRunResult → Db → Handled
unfolding enqueue_start
start_created q project_not_found db = refuse 404 "PROJECT_NOT_FOUND" db
start_created q (idempotency_conflict id r) db = refuse 409 "IDEMPOTENCY_KEY_CONFLICT" db
start_created q (created id r true) db = record {
  result = run_reply 200 r;
  queued = none;
  stored = db;
}
start_created q (created id r false) db = enqueue_start q id r db

unfoldable pub start_result : Request → Db → Outcome (CreateRunResult × Db) → Handled
unfolding start_created
start_result q db (ok (result, db')) = start_created q result db'
start_result q db (thrown not_found) = refuse 500 "INTERNAL_SERVER_ERROR" db
start_result q db (thrown unique_violation) = refuse 500 "INTERNAL_SERVER_ERROR" db
start_result q db (thrown (fault e)) =
    if str_eq e "RepositoryAttachmentError"
    then refuse 409 "RUN_ATTACHMENTS_NOT_READY" db
    else refuse 500 "INTERNAL_SERVER_ERROR" db

-- POST /v1/projects/:id/runs (`createRun`)
unfoldable pub start_run : Request → (new_id : ℕ) → CreateRunInput → Db → Handled
unfolding start_result create_run_with_idempotency
start_run q new_id i db =
    if q.execution_enabled
    then start_result q db (create_run_with_idempotency q.others new_id i db)
    else refuse 503 "RUN_EXECUTION_DISABLED" db

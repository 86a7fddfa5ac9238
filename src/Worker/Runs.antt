-- ===== src/Worker/Runs.antt =====
-- repository.ts: claiming, pausing, completing and failing a run.
pub mod Steps
pub mod Ends
use atoms_platform.Common.{
  ℕ, suc, ◌+◌, String, Bool, true, false, not, ◌&&◌, Option, none, some, ◌==◌, if◌then◌else◌,
}
use atoms_platform.Store.{
  RunStatus, Command, ApprovalScope, Run, Payload, ErrorJson, Db, Tx, ok, pure, ◌>>=◌, ◌>>◌,
  find_run, find_run_or_throw, update_at, append_event, same_status,
}

pub record RunJob : Type 0 where
  pub run_id : ℕ
  pub command : Command
  pub control_version : ℕ
  pub approval_scope : Option ApprovalScope

pub record RunExecutionRecord : Type 0 where
  pub id : ℕ
  pub workspace_id : ℕ
  pub project_id : ℕ
  pub status : RunStatus
  pub prompt : String
  pub control_version : ℕ

pub data RunClaimResult : Type 0 where
  ready : RunExecutionRecord → RunClaimResult
  missing : RunClaimResult
  stale : RunStatus → (control_version : ℕ) → RunClaimResult

abbrev pub to_run_execution_record : ℕ → Run → RunExecutionRecord
to_run_execution_record id r = record {
  id = id;
  workspace_id = r.workspace_id;
  project_id = r.project_id;
  status = r.status;
  prompt = r.prompt;
  control_version = r.control_version;
}

-- `a ?? b` on a column.
abbrev pub or_else : Option ℕ → ℕ → Option ℕ
or_else none b = some b
or_else (some a) b = some a

abbrev pub claim : Run → ℕ → Run → Run
claim current now r = record r {
  status = RunStatus.running;
  control_version = suc r.control_version;
  started_at = or_else current.started_at now;
  last_heartbeat_at = some now;
}

-- What other connections commit between two statements of a transaction.
abbrev pub commits : (Db → Db) → Tx (Unit {0})
commits others db = ok (tt, others db)

unfoldable pub claim_won : RunJob → Tx RunClaimResult
claim_won job = do
  run ← find_run_or_throw job.run_id
  append_event job.run_id
      (Payload.status_changed RunStatus.pending RunStatus.running job.command run.control_version)
  pure (ready (to_run_execution_record job.run_id run))

unfoldable pub claim_lost : RunJob → Tx RunClaimResult
claim_lost job = do
  latest ← find_run_or_throw job.run_id
  pure (stale latest.status latest.control_version)

unfoldable pub claim_pending : (Db → Db) → RunJob → ℕ → Run → Tx RunClaimResult
unfolding claim_won claim_lost
claim_pending others job now current = do
  commits others
  claimed ← update_at job.run_id RunStatus.pending job.control_version (claim current now)
  if claimed then claim_won job else claim_lost job

unfoldable pub claim_found : (Db → Db) → RunJob → ℕ → Option Run → Tx RunClaimResult
unfolding claim_pending
claim_found others job now none = pure missing
claim_found others job now (some current) =
    if same_status current.status RunStatus.running
      && current.control_version == job.control_version + 1
    then pure (ready (to_run_execution_record job.run_id current))
    else if same_status current.status RunStatus.pending
        && current.control_version == job.control_version
    then claim_pending others job now current
    else pure (stale current.status current.control_version)

-- `claimRun`; `others` is what other connections commit between its read and its compare-and-swap.
unfoldable pub claim_run : (Db → Db) → RunJob → ℕ → Tx RunClaimResult
unfolding claim_found
claim_run others job now = do current ← find_run job.run_id; claim_found others job now current

abbrev pub pause_at : ℕ → Run → Run
pause_at now r = record r {
  status = RunStatus.paused;
  control_version = suc r.control_version;
  paused_at = some now;
  last_heartbeat_at = some now;
}

-- `requestApproval`
unfoldable pub request_approval : (run version : ℕ) → ApprovalScope → String → ℕ → Tx Bool
request_approval run version scope reason now = do
  updated ← update_at run RunStatus.running version (pause_at now)
  if updated
      then append_event run (Payload.approval_required scope reason) >> pure true
      else pure false

abbrev pub complete_at : ℕ → Run → Run
complete_at now r = record r {
  status = RunStatus.completed;
  control_version = suc r.control_version;
  completed_at = some now;
  last_heartbeat_at = some now;
}

-- `completeRun`
unfoldable pub complete_run : (run version now : ℕ) → Tx Bool
complete_run run version now = do
  updated ← update_at run RunStatus.running version (complete_at now)
  if updated then append_event run (Payload.run_completed now) >> pure true else pure false

abbrev pub fail_at : ErrorJson → ℕ → Run → Run
fail_at error now r = record r {
  status = RunStatus.failed;
  control_version = suc r.control_version;
  error = some error;
  completed_at = some now;
  last_heartbeat_at = some now;
}

-- `failRun`
unfoldable pub fail_run : (run version : ℕ) → ErrorJson → ℕ → Tx Bool
fail_run run version error now = do
  updated ← update_at run RunStatus.running version (fail_at error now)
  if updated then append_event run (Payload.run_failed error) >> pure true else pure false

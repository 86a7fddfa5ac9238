-- ===== src/Worker/Previews.antt =====
-- repository.ts: the preview of a validated run, and the preview that is opened again after the run.
pub mod Steps
pub mod Reopening
use atoms_platform.Common.{
  ℕ, ◌+◌, ◌-◌, max, String, Bool, true, false, Option, none, some, if◌then◌else◌, ◌&&◌, ◌==◌,
  Option-cases,
}
use atoms_platform.Common.Table.{lookup}
use atoms_platform.Store.{
  Json, RunStatus, Run, Db, SandboxStatus, PreviewStatus, SandboxSession, PreviewSession, Payload,
  Tx, ok, pure, ◌>>=◌, ◌>>◌, find_run, touch_active_run, append_event, same_status,
  update_session_if, update_session, insert_session, last_attempt, preview_of, insert_preview,
  update_preview,
}
use atoms_platform.Worker.Runs.{RunExecutionRecord}
use atoms_platform.Worker.Sandboxes.{of_run, failed_session}

-- The columns of a ready preview that its caller gives.
pub record PreviewData : Type 0 where
  pub workspace_id : ℕ
  pub project_id : ℕ
  pub run_id : ℕ
  pub sandbox_session_id : ℕ
  pub gateway_url : String
  pub process_id : ℕ
  pub expires_at : ℕ
  pub now : ℕ

pub record RecordPreviewReadyInput : Type 0 where
  pub run : RunExecutionRecord
  pub sandbox_session_id : ℕ
  pub gateway_url : String
  pub process_id : ℕ
  pub expires_at : ℕ
  pub now : ℕ

abbrev pub preview_data : RecordPreviewReadyInput → PreviewData
preview_data i = record {
  workspace_id = i.run.workspace_id;
  project_id = i.run.project_id;
  run_id = i.run.id;
  sandbox_session_id = i.sandbox_session_id;
  gateway_url = i.gateway_url;
  process_id = i.process_id;
  expires_at = i.expires_at;
  now = i.now;
}

abbrev pub new_preview : PreviewData → PreviewSession
new_preview d = record {
  workspace_id = d.workspace_id;
  project_id = d.project_id;
  run_id = d.run_id;
  sandbox_session_id = d.sandbox_session_id;
  status = PreviewStatus.ready;
  gateway_url = d.gateway_url;
  process_id = d.process_id;
  expires_at = d.expires_at;
  ready_at = d.now;
  stopped_at = none;
  error = none;
}

abbrev pub renew_preview : PreviewData → PreviewSession → PreviewSession
renew_preview d p = record p {
  status = PreviewStatus.ready;
  gateway_url = d.gateway_url;
  process_id = d.process_id;
  expires_at = d.expires_at;
  ready_at = d.now;
  stopped_at = none;
  error = none;
}

-- `upsert` by the sandbox session; the preview's id is the session's.
unfoldable pub upsert_preview : PreviewData → Option (ℕ × PreviewSession) → Tx (Unit {0})
upsert_preview d none = insert_preview d.sandbox_session_id (new_preview d)
upsert_preview d (some (id, p)) = update_preview id (renew_preview d)

unfoldable pub find_preview_of : ℕ → Tx (Option (ℕ × PreviewSession))
find_preview_of session db = ok (preview_of session db.preview_sessions, db)

abbrev pub ready_session : SandboxSession → SandboxSession
ready_session s = record s { status = SandboxStatus.ready; error = none }

abbrev pub shown : PreviewData → Payload
shown d =
    Payload.preview_updated d.sandbox_session_id PreviewStatus.ready (some d.gateway_url)
      d.expires_at

unfoldable pub show_preview : PreviewData → Tx Bool
show_preview d =
    find_preview_of d.sandbox_session_id
    >>= upsert_preview d
    >> append_event d.run_id (shown d)
    >> pure true

unfoldable pub ready_active : PreviewData → Tx Bool
ready_active d = do
  updated ← update_session_if d.sandbox_session_id (of_run d.run_id) ready_session
  if updated then show_preview d else pure false

-- `recordPreviewReady`
unfoldable pub record_preview_ready : RecordPreviewReadyInput → Tx Bool
record_preview_ready i = do
  alive ← touch_active_run i.run.id i.run.control_version i.now
  if alive then ready_active (preview_data i) else pure false

abbrev pub preview_reopen_first_attempt : ℕ
preview_reopen_first_attempt = 1001

pub record CreatePreviewReopenSessionInput : Type 0 where
  pub project_id : ℕ
  pub workspace_id : ℕ
  pub run_id : ℕ
  pub external_id : String
  pub expires_at : ℕ

abbrev pub is_reopenable : CreatePreviewReopenSessionInput → Option Run → Bool
is_reopenable i none = false
is_reopenable i (some r) =
    r.project_id == i.project_id
    && r.workspace_id == i.workspace_id
    && same_status r.status RunStatus.completed

abbrev pub reopened_session : CreatePreviewReopenSessionInput → ℕ → SandboxSession
reopened_session i last = record {
  workspace_id = i.workspace_id;
  project_id = i.project_id;
  run_id = i.run_id;
  external_id = i.external_id;
  attempt = max (preview_reopen_first_attempt - 1) last + 1;
  status = SandboxStatus.provisioning;
  expires_at = i.expires_at;
  error = none;
  terminated_at = none;
}

unfoldable pub last_attempt_of : ℕ → Tx ℕ
last_attempt_of run db = ok (last_attempt run db.sandbox_sessions, db)

unfoldable pub reopen_found : (new_id : ℕ) → CreatePreviewReopenSessionInput → Tx (Option ℕ)
reopen_found new_id i = do
  last ← last_attempt_of i.run_id
  id ← insert_session new_id (reopened_session i last)
  pure (some id)

-- `createPreviewReopenSession`; `new_id` is the id that the database would choose.
unfoldable pub create_preview_reopen_session :
    (new_id : ℕ) → CreatePreviewReopenSessionInput → Tx (Option ℕ)
create_preview_reopen_session new_id i = do
  run ← find_run i.run_id
  if is_reopenable i run then reopen_found new_id i else pure none

-- `recordPreviewReopened`
unfoldable pub record_preview_reopened : PreviewData → Tx (Unit {0})
record_preview_reopened d =
    update_session d.sandbox_session_id ready_session
    >> insert_preview d.sandbox_session_id (new_preview d)
    >> append_event d.run_id (shown d)

unfoldable pub fail_reopened : Option ℕ → Json → (now : ℕ) → Tx (Unit {0})
fail_reopened none error now = pure tt
fail_reopened (some session) error now =
    update_session_if session (λ s. true) (failed_session error now) >>= λ updated. pure tt

-- `sandboxSessionId ?? runId`
abbrev pub id_or : Option ℕ → ℕ → ℕ
id_or none run = run
id_or (some session) run = session

-- `recordPreviewReopenFailed`
unfoldable pub record_preview_reopen_failed :
    (run : ℕ) (session : Option ℕ) → Json → (now : ℕ) → Tx (Unit {0})
record_preview_reopen_failed run session error now =
    fail_reopened session error now
    >> append_event run (Payload.preview_updated (id_or session run) PreviewStatus.error none now)

abbrev pub terminated_session : ℕ → SandboxSession → SandboxSession
terminated_session now s = record s { status = SandboxStatus.terminated; terminated_at = some now }

abbrev pub stopped_preview : ℕ → PreviewSession → PreviewSession
stopped_preview now p = record p { status = PreviewStatus.stopped; stopped_at = some now }

unfoldable pub stop_preview : (run now : ℕ) → Option (ℕ × PreviewSession) → Tx (Unit {0})
stop_preview run now none = pure tt
stop_preview run now (some (id, p)) =
    update_preview id (stopped_preview now)
    >> append_event run (Payload.preview_updated id PreviewStatus.stopped none p.expires_at)

unfoldable pub stop_session : (session now : ℕ) → Option SandboxSession → Tx (Unit {0})
stop_session session now none = pure tt
stop_session session now (some s) = do
  preview ← find_preview_of session
  update_session session (terminated_session now)
  stop_preview s.run_id now preview

-- `markPreviewStopped`
unfoldable pub mark_preview_stopped : (session now : ℕ) → Tx (Unit {0})
mark_preview_stopped session now db =
    stop_session session now (lookup session db.sandbox_sessions) db

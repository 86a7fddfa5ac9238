-- ===== src/Tests/Sandboxes.antt =====
-- Sandboxes: the theorems on sandbox sessions and previews at work.
use atoms_platform.Common.{◌≡◌, refl, true, false, none, some, [], ◌∷◌, arith}
use atoms_platform.Store.{
  SandboxStep, SandboxStatus, SandboxSession, Db, ok, last_attempt, session_of_attempt,
  external_taken, insert_session,
}
use atoms_platform.Worker.Sandboxes.{RecordSandboxCommandInput, record_sandbox_command}
use atoms_platform.Worker.Sandboxes.Recording.{Records, record_sandbox_command-Records}
use atoms_platform.Worker.Previews.{
  CreatePreviewReopenSessionInput, reopened_session, last_attempt_of, reopen_found,
  create_preview_reopen_session,
}
use atoms_platform.Worker.Previews.Reopening.{Reopens, create_preview_reopen_session-Reopens}
use atoms_platform.Tests.{running_shop, finished_shop}

abbrev first_session : SandboxSession
first_session = record {
  workspace_id = 5;
  project_id = 9;
  run_id = 1;
  external_id = "box";
  attempt = 1;
  status = SandboxStatus.validating;
  expires_at = 900;
  error = none;
  terminated_at = none;
}

abbrev sandboxed : Db → Db
sandboxed db = record db { sandbox_sessions = (70, first_session) ∷ [] }

abbrev reported : RecordSandboxCommandInput
reported = record {
  run_id = 1;
  expected_control_version = 1;
  sandbox_session_id = 70;
  step = record {
    ordinal = 3;
    name = SandboxStep.typecheck;
    command = "npm run typecheck";
    exit_code = 2;
    stdout = 79 ∷ 75 ∷ [];
    stderr = [];
    duration_ms = 12;
    started_at = 20;
    completed_at = 32;
  };
  now = 33;
}

record_sandbox_command-Records_example :
    Records reported
      (sandboxed running_shop)
      (record_sandbox_command reported (sandboxed running_shop))
record_sandbox_command-Records_example =
    record_sandbox_command-Records reported (sandboxed running_shop) (omega arith)

abbrev reopening : CreatePreviewReopenSessionInput
reopening = record {
  project_id = 9;
  workspace_id = 5;
  run_id = 1;
  external_id = "new box";
  expires_at = 2000;
}

reopens :
    create_preview_reopen_session 71 reopening (sandboxed finished_shop)
    ≡ ok (
      some 71,
      record finished_shop {
        sandbox_sessions = (71, reopened_session reopening 1) ∷ (70, first_session) ∷ [];
      },
    )
unfolding create_preview_reopen_session reopen_found last_attempt_of last_attempt insert_session
    session_of_attempt external_taken
reopens = refl

not_taken : external_taken none "new box" (sandboxed finished_shop).sandbox_sessions ≡ false
unfolding external_taken
not_taken = refl

create_preview_reopen_session-Reopens_example :
    Reopens 71 reopening
      (sandboxed finished_shop)
      true
      (create_preview_reopen_session 71 reopening (sandboxed finished_shop))
create_preview_reopen_session-Reopens_example =
    create_preview_reopen_session-Reopens 71 reopening (sandboxed finished_shop) refl not_taken

-- ===== src/Store/Sandboxes.antt =====
-- Rows of sandbox_sessions, sandbox_commands and preview_sessions. A text that the code measures is
-- the list of its UTF-16 code units; a process id and an exit code are natural numbers.
use atoms_platform.Common.{ℕ, String, Option, List}

abbrev pub Json : Type 0
Json = String

abbrev pub Text : Type 0
Text = List ℕ

pub data SandboxStatus : Type 0 where
  provisioning validating ready failed terminated expired : SandboxStatus

pub data PreviewStatus : Type 0 where
  ready stopped expired error : PreviewStatus

pub data SandboxStep : Type 0 where
  install prisma_validate lint typecheck test build preview_start preview_health acceptance db_start
        db_migrate db_seed :
      SandboxStep

pub data CommandStatus : Type 0 where
  succeeded failed : CommandStatus

-- The provider column has one value only.
pub record SandboxSession : Type 0 where
  pub workspace_id : ℕ
  pub project_id : ℕ
  pub run_id : ℕ
  pub external_id : String
  pub attempt : ℕ
  pub status : SandboxStatus
  pub expires_at : ℕ
  pub error : Option Json
  pub terminated_at : Option ℕ

pub record SandboxCommand : Type 0 where
  pub sandbox_session_id : ℕ
  pub ordinal : ℕ
  pub name : SandboxStep
  pub command : String
  pub status : CommandStatus
  pub exit_code : ℕ
  pub stdout : Text
  pub stderr : Text
  pub duration_ms : ℕ
  pub started_at : ℕ
  pub completed_at : ℕ

pub record PreviewSession : Type 0 where
  pub workspace_id : ℕ
  pub project_id : ℕ
  pub run_id : ℕ
  pub sandbox_session_id : ℕ
  pub status : PreviewStatus
  pub gateway_url : String
  pub process_id : ℕ
  pub expires_at : ℕ
  pub ready_at : ℕ
  pub stopped_at : Option ℕ
  pub error : Option Json

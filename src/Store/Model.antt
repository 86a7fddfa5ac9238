-- ===== src/Store/Model.antt =====
-- Rows of the shared database. Ids are only compared and times only ordered, so both are natural
-- numbers; a JSON column holds its serialised text.
use atoms_platform.Common.{ℕ, String, Bool, Option, List, ◌==◌}
use atoms_platform.Common.Table.{Table}
use atoms_platform.Store.Sandboxes.{
  Json, Text, SandboxStep, CommandStatus, PreviewStatus, SandboxSession, SandboxCommand,
  PreviewSession,
}

pub data RunStatus : Type 0 where
  pending running paused completed failed cancelled : RunStatus

pub data Command : Type 0 where
  start approve resume retry : Command

pub data ApprovalScope : Type 0 where
  plan content : ApprovalScope

pub data Agent : Type 0 where
  sophia mike emma bob alex david sarah adrian customer_success : Agent

pub data TaskStatus : Type 0 where
  pending running waiting_for_approval completed failed cancelled skipped : TaskStatus

pub data SkipReason : Type 0 where
  not_required_for_project_type plan_not_entitled : SkipReason

-- The enum values by position, to compare two of them.
abbrev status_code : RunStatus → ℕ
status_code RunStatus.pending = 0
status_code RunStatus.running = 1
status_code RunStatus.paused = 2
status_code RunStatus.completed = 3
status_code RunStatus.failed = 4
status_code RunStatus.cancelled = 5

abbrev pub same_status : RunStatus → RunStatus → Bool
same_status a b = status_code a == status_code b

-- The JSON object in a run's or a task's `error` column.
pub record ErrorJson : Type 0 where
  pub code : String
  pub name : Option String
  pub message : String
  pub retryable : Bool
  pub reason : Option String

pub record Run : Type 0 where
  pub workspace_id : ℕ
  pub project_id : ℕ
  pub idempotency_key : Option String
  pub status : RunStatus
  pub prompt : String
  pub checkpoint : Option Json
  pub error : Option ErrorJson
  pub event_sequence : ℕ
  pub control_version : ℕ
  pub started_at : Option ℕ
  pub paused_at : Option ℕ
  pub completed_at : Option ℕ
  pub cancelled_at : Option ℕ
  pub last_heartbeat_at : Option ℕ
  pub reminder_sent_at : Option ℕ
  pub purged_at : Option ℕ

pub record Task : Type 0 where
  pub run_id : ℕ
  pub agent_name : Agent
  pub description : String
  pub status : TaskStatus
  pub ordinal : ℕ
  pub attempt : ℕ
  pub input : Option Json
  pub output : Option Json
  pub error : Option ErrorJson
  pub started_at : Option ℕ
  pub completed_at : Option ℕ

pub data Payload : Type 0 where
  status_changed : (from to : RunStatus) (command : Command) (control_version : ℕ) → Payload
  task_created : (task_id : ℕ) (agent : Agent) (ordinal : ℕ) (description : String) → Payload
  task_skipped :
      (task_id : ℕ) (agent : Agent) (ordinal : ℕ) (description : String)
      (reason : Option SkipReason)
      → Payload
  task_started task_completed : (task_id : ℕ) (agent : Agent) (ordinal attempt : ℕ) → Payload
  task_failed : (task_id : ℕ) (agent : Agent) (ordinal attempt : ℕ) (error : ErrorJson) → Payload
  artifact_created :
      (task_id : ℕ) (agent : Agent) (artifact_type : String) (migration_artifact_id : Option ℕ)
      → Payload
  code_generated : (task_id : Option ℕ) (paths : List String) (file_count : ℕ) → Payload
  approval_required : ApprovalScope → (reason : String) → Payload
  run_completed : (completed_at : ℕ) → Payload
  run_failed : ErrorJson → Payload
  approval_reminder_due : (paused_at : ℕ) → Payload
  data_purged : (cancelled_at : ℕ) → Payload
  -- The status that `sandbox.ready` names is always VALIDATING.
  sandbox_ready : (sandbox_session_id : ℕ) → Payload
  task_progress :
      (sandbox_session_id ordinal : ℕ) (step : SandboxStep) (status : CommandStatus)
      (exit_code duration_ms : ℕ) (stdout stderr : Text)
      → Payload
  preview_updated :
      (preview_session_id : ℕ) (status : PreviewStatus) (url : Option String) (expires_at : ℕ)
      → Payload
  release_assessment_started : (assessment_id attempt : ℕ) → Payload
  release_ready : (assessment_id check_count criterion_count : ℕ) → Payload
  release_blocked : (assessment_id issue_count : ℕ) → Payload
  release_criterion_key_unresolved :
      (assessment_id : ℕ) (scenario : String) (missing_keys : List String) → Payload
  database_status_changed :
      (database operation operation_version : ℕ) (status : String) (message : Option String)
      → Payload

pub record Event : Type 0 where
  pub run_id : ℕ
  pub sequence : ℕ
  pub payload : Payload

-- One stored version of a project file.
pub record File : Type 0 where
  pub project_id : ℕ
  pub file_path : String
  pub content : String
  pub version : ℕ

pub data ArtifactStatus : Type 0 where
  validated superseded : ArtifactStatus

pub record MigrationArtifact : Type 0 where
  pub workspace_id : ℕ
  pub project_id : ℕ
  pub source_run_id : ℕ
  pub agent_task_id : ℕ
  pub status : ArtifactStatus
  pub schema_path : String
  pub schema_hash : String
  pub migration_paths : List String
  pub seed_path : String
  pub destructive : Bool
  pub policy_report : Json

pub data WorkspacePlan : Type 0 where
  free pro max : WorkspacePlan

pub data ProjectType : Type 0 where
  general client_portal : ProjectType

pub record Project : Type 0 where
  pub workspace_id : ℕ
  pub project_type : ProjectType
  pub archived_at : Option ℕ

pub data AttachmentStatus : Type 0 where
  awaiting_upload quarantined scanning clean rejected failed expired : AttachmentStatus

pub record Attachment : Type 0 where
  pub workspace_id : ℕ
  pub project_id : ℕ
  pub status : AttachmentStatus
  pub detected_content_type : Option String
  pub sha256 : Option String
  pub clean_object_key : Option String

-- An attachment of a run: a snapshot of the project attachment.
pub record RunAttachment : Type 0 where
  pub run_id : ℕ
  pub attachment_id : ℕ
  pub content_type : String
  pub sha256 : String
  pub object_key : String

-- What the schemas of run events ask of texts: Zod's reading of a URL, the length, and `trim`.
pub record Formats : Type 0 where
  pub parse_url : String → Option String
  pub text_length : String → ℕ
  pub trim : String → String

-- The newest row of `events`, `files` and `artifacts` comes first; `members` pairs users with
-- workspaces. `formats` is no table: it is the text functions of the runtime, the same for all.
pub record Db : Type 0 where
  pub runs : Table Run
  pub tasks : Table Task
  pub events : List Event
  pub files : List File
  pub artifacts : Table MigrationArtifact
  pub run_attachments : List RunAttachment
  pub attachments : Table Attachment
  pub projects : Table Project
  pub members : List (ℕ × ℕ)
  pub plans : Table WorkspacePlan
  pub sandbox_sessions : Table SandboxSession
  pub sandbox_commands : List SandboxCommand
  pub preview_sessions : Table PreviewSession
  pub formats : Formats

-- ===== src/Tests.antt =====
-- A database with one project to run the operations on, and the theorems applied to it.
pub mod Runs
pub mod Edits
pub mod Errors
pub mod Budget
pub mod Sweeps
pub mod Sandboxes
pub mod Graph
pub mod Processor
pub mod Routes
pub mod Quality
pub mod Preview
pub mod Creation
use atoms_platform.Common.{ℕ, String, true, false, Option, none, some, List, [], ◌∷◌}
use atoms_platform.Store.{
  RunStatus, Command, Run, Payload, Event, File, Project, ProjectType, WorkspacePlan, Db,
}

abbrev pub run_in : RunStatus → (control_version event_sequence : ℕ) → Run
run_in status version sequence = record {
  workspace_id = 5;
  project_id = 9;
  idempotency_key = some "first";
  status = status;
  prompt = "Build a shop";
  checkpoint = none;
  error = none;
  event_sequence = sequence;
  control_version = version;
  started_at = some 10;
  paused_at = none;
  completed_at = none;
  cancelled_at = none;
  last_heartbeat_at = some 10;
  reminder_sent_at = none;
  purged_at = none;
}

abbrev claimed_event : Event
claimed_event = record {
  run_id = 1;
  sequence = 1;
  payload = Payload.status_changed RunStatus.pending RunStatus.running Command.start 1;
}

abbrev pub home : File
home = record { project_id = 9; file_path = "src/app.ts"; content = "one"; version = 1 }

-- User 7 is a member of workspace 5, which has project 9 with run 1.
abbrev pub shop : Run → List Event → Db
shop r events = record {
  runs = (1, r) ∷ [];
  tasks = [];
  events = events;
  files = home ∷ [];
  artifacts = [];
  run_attachments = [];
  attachments = [];
  projects =
      (9, record { workspace_id = 5; project_type = ProjectType.general; archived_at = none }) ∷ [];
  members = (7, 5) ∷ [];
  plans = (5, WorkspacePlan.pro) ∷ [];
  sandbox_sessions = [];
  sandbox_commands = [];
  preview_sessions = [];
  formats = record { parse_url = λ s. some s; text_length = λ s. 11; trim = λ s. s };
}

-- The run is held by a worker at version 1.
abbrev pub running_shop : Db
running_shop = shop (run_in RunStatus.running 1 1) (claimed_event ∷ [])

abbrev pub paused_shop : Db
paused_shop = shop (run_in RunStatus.paused 2 0) []

abbrev pub finished_shop : Db
finished_shop = shop (run_in RunStatus.completed 2 0) []

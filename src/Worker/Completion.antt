-- ===== src/Worker/Completion.antt =====
-- repository.ts, `completeTask`: an agent's result, its files, its migration artifact and its events
-- in one transaction.
pub mod Steps
use atoms_platform.Common.{
  ℕ, suc, String, Bool, true, false, not, ◌&&◌, ltb, Option, none, some, List, [], ◌∷◌, ◌==◌,
  if◌then◌else◌, length, is_some,
}
use atoms_platform.Common.Table.{Table, lookup, modify}
use atoms_platform.Store.{
  Agent, TaskStatus, ArtifactStatus, MigrationArtifact, Run, Task, Json, File, Payload, Db, DbError,
  Tx, ok, thrown, fault, pure, throw, ◌>>=◌, ◌>>◌, touch_active_run, append_event,
  find_run_or_throw, find_task_or_throw, update_task, or_throw, latest,
}
use atoms_platform.Worker.Tasks.{WorkerTaskRecord, to_worker_task_record, is_completed}
use atoms_platform.Worker.Patches.{
  GeneratedFile, FilePlan, FileConflict, Planned, plans, conflict, plan_stored, plan_files,
  write_files,
}

-- What `completeTask` reads of David's output.
pub record DavidOutput : Type 0 where
  pub has_blocking_finding : Bool
  pub schema_prisma_path : String
  pub migration_paths : List String
  pub seed_path : String
  pub destructive_changes : ℕ
  pub policy_report : Json

-- The schema parser of David's output, where `none` stands for a refusal, and SHA-256 in hex.
pub record Parsers : Type 0 where
  pub parse_david : Json → Option DavidOutput
  pub sha256 : String → String

pub record CompleteTaskInput : Type 0 where
  pub run_id : ℕ
  pub expected_control_version : ℕ
  pub task_id : ℕ
  pub output : Json
  pub generated_files : Option (List GeneratedFile)
  pub now : ℕ

pub data CompleteTaskResult : Type 0 where
  done : WorkerTaskRecord → CompleteTaskResult
  stopped : CompleteTaskResult
  file_conflict : FileConflict → CompleteTaskResult

-- The columns of a migration artifact that come from David's output.
pub record ArtifactData : Type 0 where
  pub schema_path : String
  pub schema_hash : String
  pub migration_paths : List String
  pub seed_path : String
  pub destructive : Bool
  pub policy_report : Json

abbrev pub is_david : Agent → Bool
is_david Agent.david = true
is_david _ = false

abbrev pub files_or_none : Option (List GeneratedFile) → List GeneratedFile
files_or_none none = []
files_or_none (some fs) = fs

abbrev pub stored_latest : ℕ → String → Tx (Option File)
stored_latest project path db = ok (latest project path db.files, db)

abbrev pub artifact_of : Parsers → DavidOutput → File → ArtifactData
artifact_of env d schema = record {
  schema_path = d.schema_prisma_path;
  schema_hash = env.sha256 schema.content;
  migration_paths = d.migration_paths;
  seed_path = d.seed_path;
  destructive = ltb 0 d.destructive_changes;
  policy_report = d.policy_report;
}

unfoldable pub with_schema : Parsers → DavidOutput → Option File → Tx (Option ArtifactData)
with_schema env d none = throw (fault "David referenced a missing Prisma schema")
with_schema env d (some schema) = pure (some (artifact_of env d schema))

unfoldable pub david_artifact : Parsers → ℕ → Json → Tx (Option ArtifactData)
unfolding with_schema
david_artifact env project output = do
  d ← or_throw (env.parse_david output)
  if d.has_blocking_finding
      then throw (fault "David data-policy report contains a blocking finding")
      else (do schema ← stored_latest project d.schema_prisma_path; with_schema env d schema)

abbrev pub complete_row : Json → ℕ → Task → Task
complete_row output now t = record t {
  status = TaskStatus.completed;
  output = some output;
  error = none;
  completed_at = some now;
}

abbrev pub is_validated : ArtifactStatus → Bool
is_validated ArtifactStatus.validated = true
is_validated ArtifactStatus.superseded = false

-- The project's other validated artifacts are superseded.
unfoldable pub supersede : (project task : ℕ) → Table MigrationArtifact → Table MigrationArtifact
supersede project task [] = []
supersede project task ((id, a) ∷ t) =
    (
      id,
      if a.project_id == project && is_validated a.status && not (a.agent_task_id == task)
          then record a { status = ArtifactStatus.superseded }
          else a,
    )
    ∷ supersede project task t

-- The id of the artifact of a task.
unfoldable pub artifact_by_task : ℕ → Table MigrationArtifact → Option ℕ
artifact_by_task task [] = none
artifact_by_task task ((id, a) ∷ t) =
    if a.agent_task_id == task then some id else artifact_by_task task t

abbrev pub new_artifact : (workspace project run task : ℕ) → ArtifactData → MigrationArtifact
new_artifact workspace project run task d = record {
  workspace_id = workspace;
  project_id = project;
  source_run_id = run;
  agent_task_id = task;
  status = ArtifactStatus.validated;
  schema_path = d.schema_path;
  schema_hash = d.schema_hash;
  migration_paths = d.migration_paths;
  seed_path = d.seed_path;
  destructive = d.destructive;
  policy_report = d.policy_report;
}

abbrev pub renew_artifact : ArtifactData → MigrationArtifact → MigrationArtifact
renew_artifact d a = record a {
  status = ArtifactStatus.validated;
  schema_path = d.schema_path;
  schema_hash = d.schema_hash;
  migration_paths = d.migration_paths;
  seed_path = d.seed_path;
  destructive = d.destructive;
  policy_report = d.policy_report;
}

-- `upsert` by task: the table and the id of the row.
unfoldable pub upsert_artifact :
    (new_id workspace project run task : ℕ)
    → ArtifactData
    → Table MigrationArtifact
    → ℕ × Table MigrationArtifact
upsert_artifact new_id workspace project run task d t = elim (artifact_by_task task t) [
  | none ↦ (new_id, (new_id, new_artifact workspace project run task d) ∷ t)
  | some id ↦ (id, modify id (renew_artifact d) t)
]

unfoldable pub store_artifact :
    (new_id workspace project run task : ℕ) → Option ArtifactData → Tx (Option ℕ)
unfolding supersede upsert_artifact artifact_by_task
store_artifact new_id workspace project run task none db = ok (none, db)
store_artifact new_id workspace project run task (some d) db =
    let stored =
      upsert_artifact new_id workspace project run task d (supersede project task db.artifacts) in
    ok (some stored.0, record db { artifacts = stored.1 })

abbrev pub output_type : Agent → String
output_type Agent.sophia = "sophia-output"
output_type Agent.mike = "mike-output"
output_type Agent.emma = "emma-output"
output_type Agent.bob = "bob-output"
output_type Agent.alex = "alex-output"
output_type Agent.david = "david-output"
output_type Agent.sarah = "sarah-output"
output_type Agent.adrian = "adrian-output"
output_type Agent.customer_success = "customersuccess-output"

-- The package that Sarah's and Adrian's results hold besides.
unfoldable pub append_package : (run task : ℕ) → Agent → Tx (Unit {0})
append_package run task Agent.sarah =
    append_event run (Payload.artifact_created task Agent.sarah "seo-package" none)
append_package run task Agent.adrian =
    append_event run (Payload.artifact_created task Agent.adrian "content-package" none)
append_package run task _ = pure tt

unfoldable pub append_generated :
    (run task : ℕ) → Option (List GeneratedFile) → List String → Tx (Unit {0})
append_generated run task none paths = pure tt
append_generated run task (some fs) paths =
    append_event run (Payload.code_generated (some task) paths (length paths))

unfoldable pub record_completion :
    ℕ → CompleteTaskInput → Run → List String → Option ArtifactData → Tx CompleteTaskResult
unfolding store_artifact append_package append_generated
record_completion new_id i run paths artifact = do
  t ← update_task i.task_id (complete_row i.output i.now)
  artifact_id ← store_artifact new_id run.workspace_id run.project_id i.run_id i.task_id artifact
  append_event i.run_id (Payload.task_completed i.task_id t.agent_name t.ordinal t.attempt)
  append_event i.run_id
      (Payload.artifact_created i.task_id t.agent_name (output_type t.agent_name) artifact_id)
  append_package i.run_id i.task_id t.agent_name
  append_generated i.run_id i.task_id i.generated_files paths
  pure (done (to_worker_task_record i.task_id t))

unfoldable pub complete_planned :
    Parsers → ℕ → CompleteTaskInput → Run → Agent → Planned → Tx CompleteTaskResult
unfolding write_files david_artifact record_completion
complete_planned env new_id i run agent (conflict c) = pure (file_conflict c)
complete_planned env new_id i run agent (plans ps) = do
  paths ← write_files run.project_id ps
  artifact ← (if is_david agent then david_artifact env run.project_id i.output else pure none)
  record_completion new_id i run paths artifact

unfoldable pub complete_current : Parsers → ℕ → CompleteTaskInput → Agent → Tx CompleteTaskResult
unfolding complete_planned plan_files
complete_current env new_id i agent = do
  run ← find_run_or_throw i.run_id
  planned ← plan_stored run.project_id (files_or_none i.generated_files)
  complete_planned env new_id i run agent planned

unfoldable pub complete_active : Parsers → ℕ → CompleteTaskInput → Tx CompleteTaskResult
unfolding complete_current
complete_active env new_id i = do
  current ← find_task_or_throw i.task_id
  if is_completed current.status
      then pure (done (to_worker_task_record i.task_id current))
      else complete_current env new_id i current.agent_name

-- `completeTask`; a new migration artifact gets the id `new_id`.
unfoldable pub complete_task : Parsers → ℕ → CompleteTaskInput → Tx CompleteTaskResult
unfolding complete_active
complete_task env new_id i = do
  active ← touch_active_run i.run_id i.expected_control_version i.now
  if active then complete_active env new_id i else pure stopped

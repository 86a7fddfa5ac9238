-- ===== src/Worker/Completion/Steps.antt =====
-- `completeTask` and the laws of the store.
use atoms_platform.Common.{ℕ, String, Option, none, some, List}
use atoms_platform.Store.{
  Agent, Run, Json, Db, File, IsLawful, Leads, IsContiguous, Lawful-refl, Lawful-artifacts,
  pure-IsLawful, throw-IsLawful, if-IsLawful, bind-IsLawful, bind_of, or_throw-IsLawful,
  touch_active_run-IsLawful, append_event-IsLawful, find_task_or_throw-IsLawful,
  update_task-IsLawful,
}
use atoms_platform.Worker.Runs.Steps.{append_then-IsLawful, find_run_or_throw-IsLawful}
use atoms_platform.Worker.Patches.{Planned, plans, conflict, GeneratedFile, plan_files, write_files}
use atoms_platform.Worker.Patches.Steps.{AreBacked, plan_files-AreBacked, write_files-Leads}
use atoms_platform.Worker.Completion.{
  Parsers, DavidOutput, ArtifactData, CompleteTaskInput, stopped, file_conflict, is_david,
  files_or_none, complete_row, stored_latest, with_schema, david_artifact, store_artifact,
  append_package, append_generated, record_completion, complete_planned, complete_current,
  complete_active, complete_task,
}

with_schema-IsLawful :
    (env : Parsers) (d : DavidOutput) (found : Option File) → IsLawful (with_schema env d found)
unfolding with_schema
with_schema-IsLawful env d none = throw-IsLawful _
with_schema-IsLawful env d (some schema) = pure-IsLawful _

stored_latest-IsLawful : (project : ℕ) (path : String) → IsLawful (stored_latest project path)
stored_latest-IsLawful project path = record { runs = λ db. Lawful-refl db }

david_artifact-IsLawful :
    (env : Parsers) (project : ℕ) (output : Json) → IsLawful (david_artifact env project output)
unfolding david_artifact
david_artifact-IsLawful env project output =
    bind-IsLawful _ _ (or_throw-IsLawful (env.parse_david output)) λ d.
      if-IsLawful d.has_blocking_finding (throw-IsLawful _) (
        bind-IsLawful _ _ (stored_latest-IsLawful project d.schema_prisma_path)
          (with_schema-IsLawful env d))

store_artifact-IsLawful :
    (new_id workspace project run task : ℕ) (artifact : Option ArtifactData)
    → IsLawful (store_artifact new_id workspace project run task artifact)
unfolding store_artifact
store_artifact-IsLawful new_id workspace project run task none = record {
  runs = λ db. Lawful-refl db;
}
store_artifact-IsLawful new_id workspace project run task (some d) = record {
  runs = λ db. Lawful-artifacts db _;
}

append_package-IsLawful : (run task : ℕ) (agent : Agent) → IsLawful (append_package run task agent)
unfolding append_package
append_package-IsLawful run task Agent.sarah = append_event-IsLawful run _
append_package-IsLawful run task Agent.adrian = append_event-IsLawful run _
append_package-IsLawful run task _ = pure-IsLawful tt

append_generated-IsLawful :
    (run task : ℕ) (files : Option (List GeneratedFile)) (paths : List String)
    → IsLawful (append_generated run task files paths)
unfolding append_generated
append_generated-IsLawful run task none paths = pure-IsLawful tt
append_generated-IsLawful run task (some fs) paths = append_event-IsLawful run _

record_completion-IsLawful :
    (new_id : ℕ) (i : CompleteTaskInput) (run : Run) (paths : List String)
    (artifact : Option ArtifactData)
    → IsLawful (record_completion new_id i run paths artifact)
unfolding record_completion
record_completion-IsLawful new_id i run paths artifact =
    bind-IsLawful _ _ (update_task-IsLawful i.task_id (complete_row i.output i.now)) λ t.
      bind-IsLawful _ _
        (store_artifact-IsLawful new_id run.workspace_id run.project_id i.run_id i.task_id artifact)
        λ artifact_id. append_then-IsLawful i.run_id _ _ (
          append_then-IsLawful i.run_id _ _ (
            bind-IsLawful _ _ (append_package-IsLawful i.run_id i.task_id t.agent_name) λ _.
              bind-IsLawful _ _
                (append_generated-IsLawful i.run_id i.task_id i.generated_files paths)
                λ _. pure-IsLawful _))

module _ (env : Parsers) (new_id : ℕ) (i : CompleteTaskInput) where
  complete_planned-Leads :
      (run : Run) (agent : Agent) (planned : Planned) (db : Db)
      → (IsContiguous db.files → AreBacked run.project_id db.files planned)
      → Leads db (complete_planned env new_id i run agent planned db)
  unfolding complete_planned
  complete_planned-Leads run agent (conflict c) db backed =
      (pure-IsLawful (file_conflict c)).runs db
  complete_planned-Leads run agent (plans ps) db backed =
      bind_of (write_files run.project_id ps) _ db (write_files-Leads run.project_id ps db backed)
        λ paths b e.
          (bind-IsLawful _ _
              (if-IsLawful (is_david agent) (david_artifact-IsLawful env run.project_id i.output)
                (pure-IsLawful none))
              (record_completion-IsLawful new_id i run paths)).runs
            b

  complete_current-IsLawful : (agent : Agent) → IsLawful (complete_current env new_id i agent)
  unfolding complete_current
  complete_current-IsLawful agent = bind-IsLawful _ _ (find_run_or_throw-IsLawful i.run_id) λ run.
      record {
        runs = λ db.
            let files = files_or_none i.generated_files in
            complete_planned-Leads run agent (plan_files run.project_id db.files files) db
              (plan_files-AreBacked run.project_id db.files files);
      }

  complete_active-IsLawful : IsLawful (complete_active env new_id i)
  unfolding complete_active
  complete_active-IsLawful =
      bind-IsLawful _ _ (find_task_or_throw-IsLawful i.task_id)
        λ current. if-IsLawful _ (pure-IsLawful _) (complete_current-IsLawful current.agent_name)

  pub complete_task-IsLawful : IsLawful (complete_task env new_id i)
  unfolding complete_task
  complete_task-IsLawful =
      bind-IsLawful _ _ (touch_active_run-IsLawful i.run_id i.expected_control_version i.now)
        λ active. if-IsLawful active complete_active-IsLawful (pure-IsLawful stopped)

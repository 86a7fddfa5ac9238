-- ===== src/Worker/Agents/Nodes.antt =====
-- graph.ts, runAgent: one agent of a run, from the check that it is needed to its stored result.
use atoms_platform.Common.{
  ℕ, Bool, true, false, not, Option, none, some, List, [], ◌∷◌, if◌then◌else◌,
}
use atoms_platform.Store.{Agent, SkipReason, ProjectType, Json, File}
use atoms_platform.Worker.Errors.{ErrorNode, ErrorClass, is_run_stopped}
use atoms_platform.Worker.Tasks.{
  WorkerTaskRecord, PrepareTaskInput, TaskMutationResult, prepared, prepare_task, skip_task,
  start_task, fail_task, is_completed,
}
use atoms_platform.Worker.Patches.{GeneratedFile}
use atoms_platform.Worker.Completion.{CompleteTaskResult, complete_task}
use atoms_platform.Worker.Jobs.{
  Result, Job, from_result, give, raise, ◌>>=◌, ◌>>◌, catching, stopped_with, transact,
}
use atoms_platform.Worker.Agents.State.{
  Outputs, agent_code, output_of, RunState, AgentInput, SeoPackage, Ports, description_of,
  is_premium, is_entitled, agents_required_for, is_required_for_project_type, get_project_type,
  get_workspace_plan, list_project_files,
}
use atoms_platform.Worker.Agents.Checks.{passes_seo_checks, seo_error}

-- `parseUpstreamOutputs`
abbrev pub upstream_agents : List Agent
upstream_agents = agents_required_for ProjectType.general

unfoldable pub parse_next : Ports → Agent → Option Json → Job Outputs → Job Outputs
parse_next p agent none rest = rest
parse_next p agent (some j) rest = do
  parsed ← from_result (p.parse_output agent (some j))
  more ← rest
  give ((agent, parsed) ∷ more)

unfoldable pub parse_agents : Ports → Outputs → List Agent → Job Outputs
parse_agents p outputs [] = give []
parse_agents p outputs (agent ∷ rest) =
    parse_next p agent (output_of agent outputs) (parse_agents p outputs rest)

unfoldable pub parse_upstream_outputs : Ports → Outputs → Job Outputs
parse_upstream_outputs p outputs = parse_agents p outputs upstream_agents

unfoldable pub plan_reason_to_skip : Ports → Agent → RunState → Job (Option SkipReason)
plan_reason_to_skip p agent s = do
  plan ← transact p.connections (get_workspace_plan s.workspace_id)
  give (if is_entitled plan agent then none else some SkipReason.plan_not_entitled)

unfoldable pub reason_to_skip : Ports → ProjectType → Agent → RunState → Job (Option SkipReason)
reason_to_skip p type agent s =
    if not (is_required_for_project_type type agent)
    then give (some SkipReason.not_required_for_project_type)
    else if is_premium agent
    then plan_reason_to_skip p agent s
    else give none

abbrev pub task_input :
    Ports → Agent → RunState → Outputs → Option SkipReason → (now : ℕ) → PrepareTaskInput
task_input p agent s upstream reason now = record {
  run_id = s.run_id;
  expected_control_version = s.control_version;
  agent_name = agent;
  description = description_of agent;
  ordinal = agent_code agent;
  input = p.encode_input s.prompt upstream;
  now = now;
  skip_reason = reason;
}

-- A mutation of a task, with what to do with the row if the run is still the worker's.
unfoldable pub unless_stopped :
    {A : Type 0} → (WorkerTaskRecord → Job A) → TaskMutationResult → Job A
unless_stopped next TaskMutationResult.stopped = raise (stopped_with "stopped")
unless_stopped next (prepared t) = next t

unfoldable pub skip_node : Ports → Agent → RunState → Outputs → SkipReason → Job Outputs
skip_node p agent s upstream reason w =
    (transact p.connections (
          skip_task (p.new_id w.tick)
            (task_input p agent s upstream (some reason) (p.clock w.tick)))
        >>= unless_stopped (λ t. give []))
      w

unfoldable pub restore : Ports → Agent → WorkerTaskRecord → Job Outputs
restore p agent t = do
  restored ← from_result (p.parse_output agent t.output)
  give ((agent, restored) ∷ [])

abbrev pub reads_files : Agent → Bool
reads_files Agent.alex = true
reads_files Agent.david = true
reads_files _ = false

abbrev pub reads_references : Agent → Bool
reads_references Agent.sophia = true
reads_references Agent.emma = true
reads_references _ = false

unfoldable pub files_for : Ports → Agent → RunState → Job (List File)
files_for p agent s =
    if reads_files agent
    then transact p.connections (list_project_files p.sort_by_path s.project_id)
    else give []

-- `attachmentLoader?.load(runId)`, and no references without a loader.
unfoldable pub load_with : Option (ℕ → Result (List Json)) → ℕ → Job (List Json)
load_with none run = give []
load_with (some load) run = from_result (load run)

unfoldable pub load_references : Ports → ℕ → Job (List Json)
load_references p run = load_with p.loader run

unfoldable pub references_for : Ports → Agent → RunState → Job (List Json)
references_for p agent s = if reads_references agent then load_references p s.run_id else give []

unfoldable pub call_agent : Ports → Agent → AgentInput → Job Json
call_agent p agent input w = (p.execute agent input, record w { calls = agent ∷ w.calls })

unfoldable pub check_against_bob : Ports → SeoPackage → Option Json → Job (Unit {0})
check_against_bob p seo none = give tt
check_against_bob p seo (some bob) = do
  planned ← from_result (p.route_paths bob)
  if passes_seo_checks planned seo then give tt else raise seo_error

-- `enforceDeterministicSeoChecks`
unfoldable pub enforce_deterministic_seo_checks : Ports → Json → Outputs → Job (Unit {0})
enforce_deterministic_seo_checks p output upstream = do
  seo ← from_result (p.seo_package output)
  check_against_bob p seo (output_of Agent.bob upstream)

abbrev pub is_sarah : Agent → Bool
is_sarah Agent.sarah = true
is_sarah _ = false

unfoldable pub check_output : Ports → Agent → Json → Outputs → Job (Unit {0})
check_output p agent output upstream =
    if is_sarah agent then enforce_deterministic_seo_checks p output upstream else give tt

unfoldable pub generated_files : Ports → Agent → Json → Job (Option (List GeneratedFile))
generated_files p agent output =
    if reads_files agent
    then (from_result (p.files_of agent output) >>= λ files. give (some files))
    else give none

-- `new GeneratedFileConflictError(...)`
abbrev pub conflict_error : List ErrorNode
conflict_error =
    record {
      class = ErrorClass.generated_file_conflict;
      code = "";
      name = "GeneratedFileConflictError";
      retryable = some false;
      validation_step = none;
    }
    ∷ []

unfoldable pub completed_with : Agent → Json → CompleteTaskResult → Job Outputs
completed_with agent output CompleteTaskResult.stopped = raise (stopped_with "stopped")
completed_with agent output (CompleteTaskResult.file_conflict c) = raise conflict_error
completed_with agent output (CompleteTaskResult.done t) = give ((agent, output) ∷ [])

unfoldable pub store_result :
    Ports → Agent → RunState → (task : ℕ) → Json → Option (List GeneratedFile) → Job Outputs
store_result p agent s task output files w =
    (transact p.connections (
          complete_task p.parsers (p.new_id w.tick) (record {
            run_id = s.run_id;
            expected_control_version = s.control_version;
            task_id = task;
            output = output;
            generated_files = files;
            now = p.clock w.tick;
          }))
        >>= completed_with agent output)
      w

-- The body of the `try`.
unfoldable pub attempt_agent :
    Ports → ProjectType → Agent → RunState → Outputs → (task : ℕ) → Job Outputs
attempt_agent p type agent s upstream task = do
  files ← files_for p agent s
  references ← references_for p agent s
  output ← call_agent p agent (record {
    run_id = s.run_id;
    prompt = s.prompt;
    upstream_outputs = upstream;
    current_files = files;
    project_type = type;
    reference_attachments = references;
  })
  check_output p agent output upstream
  generated ← generated_files p agent output
  store_result p agent s task output generated

abbrev pub starts_stopped : List ErrorNode → Bool
starts_stopped [] = false
starts_stopped (e ∷ causes) = is_run_stopped e.class

unfoldable pub fail_agent : Ports → RunState → (task : ℕ) → List ErrorNode → Job Outputs
fail_agent p s task error w =
    (transact p.connections
          (fail_task s.run_id s.control_version task (p.to_worker_error error) (p.clock w.tick))
        >>= λ failed. raise (if failed then error else stopped_with "stopped"))
      w

-- The `catch`.
unfoldable pub give_up_agent : Ports → RunState → (task : ℕ) → List ErrorNode → Job Outputs
give_up_agent p s task error =
    if starts_stopped error then raise error else fail_agent p s task error

unfoldable pub perform_agent :
    Ports → ProjectType → Agent → RunState → Outputs → WorkerTaskRecord → Job Outputs
perform_agent p type agent s upstream t =
    if is_completed t.status
    then restore p agent t
    else catching (attempt_agent p type agent s upstream t.id) (give_up_agent p s t.id)

unfoldable pub start_agent :
    Ports → ProjectType → Agent → RunState → Outputs → WorkerTaskRecord → Job Outputs
start_agent p type agent s upstream t w =
    (if is_completed t.status
        then restore p agent t
        else transact p.connections (start_task s.run_id s.control_version t.id (p.clock w.tick))
          >>= unless_stopped (perform_agent p type agent s upstream))
      w

unfoldable pub needed_node : Ports → ProjectType → Agent → RunState → Outputs → Job Outputs
needed_node p type agent s upstream w =
    (transact p.connections
          (prepare_task (p.new_id w.tick) (task_input p agent s upstream none (p.clock w.tick)))
        >>= unless_stopped (start_agent p type agent s upstream))
      w

unfoldable pub node_for :
    Ports → ProjectType → Agent → RunState → Outputs → Option SkipReason → Job Outputs
node_for p type agent s upstream none = needed_node p type agent s upstream
node_for p type agent s upstream (some reason) = skip_node p agent s upstream reason

-- `runAgent`: the update of the outputs.
unfoldable pub run_agent : Ports → Agent → RunState → Job Outputs
run_agent p agent s = do
  upstream ← parse_upstream_outputs p s.outputs
  type ← transact p.connections (get_project_type s.project_id)
  reason ← reason_to_skip p type agent s
  node_for p type agent s upstream reason

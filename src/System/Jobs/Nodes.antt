-- ===== src/System/Jobs/Nodes.antt =====
-- runAgent, the gates and the graph as histories.
use atoms_platform.Common.{ℕ, refl, String, true, not, Option, none, some, List, [], ◌∷◌, is_some}
use atoms_platform.Store.{
  Agent, ApprovalScope, ProjectType, SkipReason, Json, Db, Tx, or_throw, after,
}
use atoms_platform.Worker.Errors.{ErrorNode}
use atoms_platform.Worker.Tasks.{
  WorkerTaskRecord, PrepareTaskInput, TaskMutationResult, prepared, prepare_task, skip_task,
  start_task, is_completed,
}
use atoms_platform.Worker.Patches.{GeneratedFile}
use atoms_platform.Worker.Completion.{CompleteTaskInput, CompleteTaskResult, complete_task}
use atoms_platform.Worker.Calls.{
  prepare, skip, start, complete, fail, ask_approval, task_accepted, completion_accepted, perform,
}
use atoms_platform.Worker.Calls
use atoms_platform.Worker.Jobs.{World, Job, Result, returned, raised, give, transact}
use atoms_platform.Worker.Jobs
use atoms_platform.Worker.Agents.{
  Ports, RunState, Outputs, SeoPackage, AgentInput, output_of, parse_next, parse_agents,
  parse_upstream_outputs, upstream_agents, plan_reason_to_skip, reason_to_skip, unless_stopped,
  skip_node, restore, files_for, load_with, load_references, references_for, call_agent,
  check_against_bob, enforce_deterministic_seo_checks, check_output, generated_files,
  completed_with, store_result, attempt_agent, fail_agent, give_up_agent, perform_agent,
  start_agent, needed_node, node_for, run_agent, get_project_type, get_workspace_plan,
  list_project_files, is_required_for_project_type, is_premium, task_input, reads_files,
  reads_references, passes_seo_checks, is_sarah, starts_stopped,
}
use atoms_platform.Worker.Graph.{
  agent_node, may_bypass, run_has_references, pause_for, pass_or_pause, needs_plan_approval,
  plan_gate, approval_gate, content_gate, content_approval_gate, plan_nodes, build_nodes, run_graph,
  plan_reason, content_reason,
}
use atoms_platform.System.{History, work}
use atoms_platform.System.Jobs.{
  Traced, Steps, give-Traced, raise-Traced, from_result-Traced, if-Traced, catching-Traced,
  bind-Traced, transact-Traced, answered-Steps, reads-Steps,
}

or_throw-after : {A : Type 0} (o : Option A) (db : Db) → History db (after db (or_throw o db))
or_throw-after none db = History.start db
or_throw-after (some a) db = History.start db

-- Other connections commit histories.
module _ (p : Ports)
    (keeps : (tick : ℕ) (db : Db) → History db (p.connections.others tick db)) where
  moves : {A : Type 0} (m : Tx A) → Steps m → Traced (transact p.connections m)
  moves m h = transact-Traced p.connections m keeps h

  prepare_task-Steps : (id : ℕ) (i : PrepareTaskInput) → Steps (prepare_task id i)
  unfolding perform
  prepare_task-Steps id i =
      answered-Steps task_accepted (prepare_task id i) (λ db. work p.parsers (prepare id i) db)

  skip_task-Steps : (id : ℕ) (i : PrepareTaskInput) → Steps (skip_task id i)
  unfolding perform
  skip_task-Steps id i =
      answered-Steps task_accepted (skip_task id i) (λ db. work p.parsers (skip id i) db)

  start_task-Steps : (run version task now : ℕ) → Steps (start_task run version task now)
  unfolding perform
  start_task-Steps run version task now =
      answered-Steps task_accepted (start_task run version task now)
        (λ db. work p.parsers (Calls.start run version task now) db)

  complete_task-Steps : (id : ℕ) (i : CompleteTaskInput) → Steps (complete_task p.parsers id i)
  unfolding perform
  complete_task-Steps id i =
      answered-Steps completion_accepted (complete_task p.parsers id i)
        (λ db. work p.parsers (complete id i) db)

  get_project_type-Steps : (project : ℕ) → Steps (get_project_type project)
  unfolding get_project_type
  get_project_type-Steps project = record { runs = λ db. or_throw-after _ db }

  get_workspace_plan-Steps : (workspace : ℕ) → Steps (get_workspace_plan workspace)
  unfolding get_workspace_plan
  get_workspace_plan-Steps workspace = record { runs = λ db. or_throw-after _ db }

  pub list_project_files-Steps : (project : ℕ) → Steps (list_project_files p.sort_by_path project)
  unfolding list_project_files
  list_project_files-Steps project = reads-Steps _ (λ db. refl)

  parse_next-Traced :
      (agent : Agent) (o : Option Json) (rest : Job Outputs)
      → Traced rest
      → Traced (parse_next p agent o rest)
  unfolding parse_next
  parse_next-Traced agent none rest h = h
  parse_next-Traced agent (some j) rest h =
      bind-Traced _ _ (from_result-Traced _) λ parsed. bind-Traced rest _ h λ more. give-Traced _

  parse_agents-Traced :
      (outputs : Outputs) (agents : List Agent) → Traced (parse_agents p outputs agents)
  unfolding parse_agents
  parse_agents-Traced outputs [] = give-Traced []
  parse_agents-Traced outputs (agent ∷ rest) =
      parse_next-Traced agent _ _ (parse_agents-Traced outputs rest)

  pub parse_upstream_outputs-Traced :
      (outputs : Outputs) → Traced (parse_upstream_outputs p outputs)
  unfolding parse_upstream_outputs
  parse_upstream_outputs-Traced outputs = parse_agents-Traced outputs upstream_agents

  load_with-Traced : (o : Option (ℕ → Result (List Json))) (run : ℕ) → Traced (load_with o run)
  unfolding load_with
  load_with-Traced none run = give-Traced []
  load_with-Traced (some load) run = from_result-Traced (load run)

  load_references-Traced : (run : ℕ) → Traced (load_references p run)
  unfolding load_references
  load_references-Traced run = load_with-Traced p.loader run

  reason_to_skip-Traced :
      (type : ProjectType) (agent : Agent) (s : RunState) → Traced (reason_to_skip p type agent s)
  unfolding reason_to_skip plan_reason_to_skip
  reason_to_skip-Traced type agent s =
      if-Traced (not (is_required_for_project_type type agent)) _ _ (give-Traced _) (
        if-Traced (is_premium agent) _ _
          (bind-Traced _ _ (moves _ (get_workspace_plan-Steps s.workspace_id))
            (λ plan. give-Traced _))
          (give-Traced _))

  unless_stopped-Traced :
      (next : WorkerTaskRecord → Job Outputs) (r : TaskMutationResult)
      → ((t : WorkerTaskRecord) → Traced (next t))
      → Traced (unless_stopped next r)
  unfolding unless_stopped
  unless_stopped-Traced next TaskMutationResult.stopped h = raise-Traced _
  unless_stopped-Traced next (prepared t) h = h t

  task_then-Traced :
      (m : World → Tx TaskMutationResult) (next : WorkerTaskRecord → Job Outputs)
      → ((w : World) → Steps (m w))
      → ((t : WorkerTaskRecord) → Traced (next t))
      → Traced (λ w. Jobs.◌>>=◌ (transact p.connections (m w)) (unless_stopped next) w)
  task_then-Traced m next step h = record {
    runs = λ w.
        (bind-Traced (transact p.connections (m w)) (unless_stopped next) (moves (m w) (step w))
            (λ r. unless_stopped-Traced next r h)).runs
          w;
  }

  restore-Traced : (agent : Agent) (t : WorkerTaskRecord) → Traced (restore p agent t)
  unfolding restore
  restore-Traced agent t = bind-Traced _ _ (from_result-Traced _) λ restored. give-Traced _

  files_for-Traced : (agent : Agent) (s : RunState) → Traced (files_for p agent s)
  unfolding files_for
  files_for-Traced agent s =
      if-Traced (reads_files agent) _ _ (moves _ (list_project_files-Steps s.project_id))
        (give-Traced [])

  references_for-Traced : (agent : Agent) (s : RunState) → Traced (references_for p agent s)
  unfolding references_for
  references_for-Traced agent s =
      if-Traced (reads_references agent) _ _ (load_references-Traced s.run_id) (give-Traced [])

  call_agent-Traced : (agent : Agent) (i : AgentInput) → Traced (call_agent p agent i)
  unfolding call_agent
  call_agent-Traced agent i = record { runs = λ w. History.start w.db }

  check_against_bob-Traced :
      (seo : SeoPackage) (o : Option Json) → Traced (check_against_bob p seo o)
  unfolding check_against_bob
  check_against_bob-Traced seo none = give-Traced tt
  check_against_bob-Traced seo (some bob) =
      bind-Traced _ _ (from_result-Traced _)
        λ planned. if-Traced (passes_seo_checks planned seo) _ _ (give-Traced tt) (raise-Traced _)

  check_output-Traced :
      (agent : Agent) (j : Json) (upstream : Outputs) → Traced (check_output p agent j upstream)
  unfolding check_output enforce_deterministic_seo_checks
  check_output-Traced agent j upstream =
      if-Traced (is_sarah agent) _ _
        (bind-Traced _ _ (from_result-Traced _) (λ seo. check_against_bob-Traced seo _))
        (give-Traced tt)

  generated_files-Traced : (agent : Agent) (j : Json) → Traced (generated_files p agent j)
  unfolding generated_files
  generated_files-Traced agent j =
      if-Traced (reads_files agent) _ _
        (bind-Traced _ _ (from_result-Traced _) (λ files. give-Traced _)) (give-Traced none)

  completed_with-Traced :
      (agent : Agent) (j : Json) (r : CompleteTaskResult) → Traced (completed_with agent j r)
  unfolding completed_with
  completed_with-Traced agent j CompleteTaskResult.stopped = raise-Traced _
  completed_with-Traced agent j (CompleteTaskResult.file_conflict c) = raise-Traced _
  completed_with-Traced agent j (CompleteTaskResult.done t) = give-Traced _

  store_result-Traced :
      (agent : Agent) (s : RunState) (task : ℕ) (j : Json) (files : Option (List GeneratedFile))
      → Traced (store_result p agent s task j files)
  unfolding store_result
  store_result-Traced agent s task j files = record {
    runs = λ w.
        (bind-Traced _ (completed_with agent j) (moves _ (complete_task-Steps (p.new_id w.tick) _))
            (completed_with-Traced agent j)).runs
          w;
  }

  give_up_agent-Traced :
      (s : RunState) (task : ℕ) (e : List ErrorNode) → Traced (give_up_agent p s task e)
  unfolding give_up_agent fail_agent perform
  give_up_agent-Traced s task e = if-Traced (starts_stopped e) _ _ (raise-Traced e) (record {
    runs = λ w.
        (bind-Traced _ _
            (moves _ (record {
              runs = λ db.
                  work p.parsers
                    (fail s.run_id s.control_version task (p.to_worker_error e) (p.clock w.tick))
                    db;
            }))
            (λ failed. raise-Traced _)).runs
          w;
  })

  attempt_agent-Traced :
      (type : ProjectType) (agent : Agent) (s : RunState) (upstream : Outputs) (task : ℕ)
      → Traced (attempt_agent p type agent s upstream task)
  unfolding attempt_agent
  attempt_agent-Traced type agent s upstream task =
      bind-Traced _ _ (files_for-Traced agent s) λ files.
        bind-Traced _ _ (references_for-Traced agent s) λ references.
          bind-Traced _ _ (call_agent-Traced agent _) λ output.
            bind-Traced _ _ (check_output-Traced agent output upstream) λ checked.
              bind-Traced _ _ (generated_files-Traced agent output)
                λ generated. store_result-Traced agent s task output generated

  perform_agent-Traced :
      (type : ProjectType) (agent : Agent) (s : RunState) (upstream : Outputs)
      (t : WorkerTaskRecord)
      → Traced (perform_agent p type agent s upstream t)
  unfolding perform_agent
  perform_agent-Traced type agent s upstream t =
      if-Traced (is_completed t.status) _ _ (restore-Traced agent t) (
        catching-Traced _ _ (attempt_agent-Traced type agent s upstream t.id)
          (give_up_agent-Traced s t.id))

  start_agent-Traced :
      (type : ProjectType) (agent : Agent) (s : RunState) (upstream : Outputs)
      (t : WorkerTaskRecord)
      → Traced (start_agent p type agent s upstream t)
  unfolding start_agent
  start_agent-Traced type agent s upstream t = record {
    runs = λ w.
        (if-Traced (is_completed t.status) _ _ (restore-Traced agent t) (
            task_then-Traced (λ v. start_task s.run_id s.control_version t.id (p.clock w.tick))
              (perform_agent p type agent s upstream)
              (λ v. start_task-Steps s.run_id s.control_version t.id (p.clock w.tick))
              (perform_agent-Traced type agent s upstream))).runs
          w;
  }

  node_for-Traced :
      (type : ProjectType) (agent : Agent) (s : RunState) (upstream : Outputs)
      (reason : Option SkipReason)
      → Traced (node_for p type agent s upstream reason)
  unfolding node_for needed_node skip_node
  node_for-Traced type agent s upstream none =
      task_then-Traced
        (λ w. prepare_task (p.new_id w.tick) (task_input p agent s upstream none (p.clock w.tick)))
        (start_agent p type agent s upstream) (λ w. prepare_task-Steps (p.new_id w.tick) _)
        (start_agent-Traced type agent s upstream)
  node_for-Traced type agent s upstream (some reason) =
      task_then-Traced
        (λ w.
          skip_task (p.new_id w.tick)
            (task_input p agent s upstream (some reason) (p.clock w.tick)))
        (λ t. give []) (λ w. skip_task-Steps (p.new_id w.tick) _) (λ t. give-Traced [])

  run_agent-Traced : (agent : Agent) (s : RunState) → Traced (run_agent p agent s)
  unfolding run_agent
  run_agent-Traced agent s = bind-Traced _ _ (parse_upstream_outputs-Traced s.outputs) λ upstream.
      bind-Traced _ _ (moves _ (get_project_type-Steps s.project_id)) λ type.
        bind-Traced _ _ (reason_to_skip-Traced type agent s)
          λ reason. node_for-Traced type agent s upstream reason

  agent_node-Traced : (agent : Agent) (s : RunState) → Traced (agent_node p agent s)
  unfolding agent_node
  agent_node-Traced agent s = bind-Traced _ _ (run_agent-Traced agent s) λ update. give-Traced _

  pass_or_pause-Traced :
      (scope : ApprovalScope) (reason : String) (s : RunState)
      → Traced (pass_or_pause p scope reason s)
  unfolding pass_or_pause pause_for perform
  pass_or_pause-Traced scope reason s = if-Traced (may_bypass scope s) _ _ (give-Traced _) (record {
    runs = λ w.
        (bind-Traced _ _
            (moves _ (record {
              runs = λ db.
                  work p.parsers
                    (ask_approval s.run_id s.control_version scope reason (p.clock w.tick)) db;
            }))
            (λ paused. raise-Traced _)).runs
          w;
  })

  approval_gate-Traced : (s : RunState) → Traced (approval_gate p s)
  unfolding approval_gate plan_gate needs_plan_approval run_has_references
  approval_gate-Traced s = bind-Traced _ _ (from_result-Traced _) λ requires.
      if-Traced (is_some (output_of Agent.alex s.outputs)) _ _ (give-Traced s) (
        bind-Traced _ _
          (if-Traced requires _ _ (give-Traced true)
            (bind-Traced _ _ (load_references-Traced s.run_id) (λ l. give-Traced _)))
          (λ needed.
            if-Traced needed _ _ (pass_or_pause-Traced ApprovalScope.plan plan_reason s)
              (give-Traced s)))

  content_gate-Traced : (o : Option Json) (s : RunState) → Traced (content_gate p o s)
  unfolding content_gate
  content_gate-Traced none s = give-Traced s
  content_gate-Traced (some adrian) s = bind-Traced _ _ (from_result-Traced _) λ has.
      if-Traced has _ _ (pass_or_pause-Traced ApprovalScope.content content_reason s)
        (give-Traced s)

  four_nodes-Traced :
      (a b c d : Agent) (s : RunState)
      → Traced (
          Jobs.◌>>=◌
            (Jobs.◌>>=◌ (Jobs.◌>>=◌ (agent_node p a s) (agent_node p b)) (agent_node p c))
            (agent_node p d))
  four_nodes-Traced a b c d s =
      bind-Traced _ _
        (bind-Traced _ _ (bind-Traced _ _ (agent_node-Traced a s) (agent_node-Traced b))
          (agent_node-Traced c))
        (agent_node-Traced d)

  pub run_graph-Traced : (s : RunState) → Traced (run_graph p s)
  unfolding run_graph plan_nodes build_nodes content_approval_gate
  run_graph-Traced s =
      bind-Traced _ _
        (bind-Traced _ _
          (bind-Traced _ _ (four_nodes-Traced Agent.sophia Agent.mike Agent.emma Agent.bob s)
            approval_gate-Traced)
          (four_nodes-Traced Agent.alex Agent.david Agent.sarah Agent.adrian))
        (λ t. content_gate-Traced (output_of Agent.adrian t.outputs) t)

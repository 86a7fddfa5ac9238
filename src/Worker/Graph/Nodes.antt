-- ===== src/Worker/Graph/Nodes.antt =====
-- runAgent: which agents a node calls and whose outputs it gives.
use atoms_platform.Common.{ℕ, ◌≡◌, refl, Bool, false, Option, none, some, List, [], ◌∷◌, not}
use atoms_platform.Store.{Tx, Agent, ProjectType, SkipReason, Json}
use atoms_platform.Worker.Errors.{ErrorNode}
use atoms_platform.Worker.Tasks.{
  WorkerTaskRecord, TaskMutationResult, prepared, is_completed, skip_task, start_task, prepare_task,
}
use atoms_platform.Worker.Patches.{GeneratedFile}
use atoms_platform.Worker.Completion.{CompleteTaskResult}
use atoms_platform.Worker.Jobs.{World, Job, Result, returned, raised, give, ◌>>=◌, transact}
use atoms_platform.Worker.Jobs.Spares.{
  Ends, Spares, give-Spares, raise-Spares, from_result-Spares, bind-Spares, catching-Spares,
  if-Spares, transact-Spares,
}
use atoms_platform.Worker.Agents.{
  Ports, RunState, Outputs, SeoPackage, AgentInput, same_agent, output_of, parse_next, parse_agents,
  parse_upstream_outputs, plan_reason_to_skip, reason_to_skip, unless_stopped, skip_node, restore,
  files_for, load_with, load_references, references_for, call_agent, check_against_bob,
  enforce_deterministic_seo_checks, check_output, generated_files, completed_with, store_result,
  attempt_agent, fail_agent, give_up_agent, perform_agent, start_agent, needed_node, node_for,
  run_agent, upstream_agents, get_project_type, is_required_for_project_type, is_premium,
  get_workspace_plan, task_input, reads_files, reads_references, passes_seo_checks, is_sarah,
  starts_stopped,
}

-- Outputs of one agent only.
abbrev pub OnlyFrom : Agent → Outputs → Type 0
OnlyFrom agent out = (other : Agent) → same_agent agent other ≡ false → output_of other out ≡ none

abbrev Anything : {A : Type 0} → A → Type 0
Anything a = Unit {0}

module _ (watched : Agent → Bool) (p : Ports) where
  parse_next-Spares :
      (agent : Agent) (o : Option Json) (rest : Job Outputs)
      → Spares watched rest Anything
      → Spares watched (parse_next p agent o rest) Anything
  unfolding parse_next
  parse_next-Spares agent none rest h = h
  parse_next-Spares agent (some j) rest h =
      bind-Spares watched _ _ Anything Anything (from_result-Spares watched _ Anything (λ a. tt))
        λ parsed u.
          bind-Spares watched rest _ Anything Anything h λ more u. give-Spares watched _ Anything tt

  pub parse_agents-Spares :
      (outputs : Outputs) (agents : List Agent)
      → Spares watched (parse_agents p outputs agents) Anything
  unfolding parse_agents
  parse_agents-Spares outputs [] = give-Spares watched [] Anything tt
  parse_agents-Spares outputs (agent ∷ rest) =
      parse_next-Spares agent _ _ (parse_agents-Spares outputs rest)

  load_with-Spares :
      (o : Option (ℕ → Result (List Json))) (run : ℕ) → Spares watched (load_with o run) Anything
  unfolding load_with
  load_with-Spares none run = give-Spares watched [] Anything tt
  load_with-Spares (some load) run = from_result-Spares watched (load run) Anything (λ a. tt)

  pub load_references-Spares : (run : ℕ) → Spares watched (load_references p run) Anything
  unfolding load_references
  load_references-Spares run = load_with-Spares p.loader run

  reason_to_skip-Spares :
      (type : ProjectType) (agent : Agent) (s : RunState)
      → Spares watched (reason_to_skip p type agent s) Anything
  unfolding reason_to_skip plan_reason_to_skip
  reason_to_skip-Spares type agent s =
      if-Spares watched (not (is_required_for_project_type type agent)) _ _ Anything
        (λ e. give-Spares watched _ Anything tt)
        λ e.
          if-Spares watched (is_premium agent) _ _ Anything
            (λ f.
              bind-Spares watched _ _ Anything Anything
                (transact-Spares watched p.connections (get_workspace_plan s.workspace_id) Anything
                  (λ a. tt))
                (λ plan u. give-Spares watched _ Anything tt))
            (λ f. give-Spares watched _ Anything tt)

  unless_stopped-Spares :
      (next : WorkerTaskRecord → Job Outputs) (r : TaskMutationResult) (post : Outputs → Type 0)
      → ((t : WorkerTaskRecord) → Spares watched (next t) post)
      → Spares watched (unless_stopped next r) post
  unfolding unless_stopped
  unless_stopped-Spares next TaskMutationResult.stopped post h = raise-Spares watched _ post
  unless_stopped-Spares next (prepared t) post h = h t

  -- A transaction on a task and what follows it.
  task_then :
      (m : World → Tx TaskMutationResult) (next : WorkerTaskRecord → Job Outputs)
      (post : Outputs → Type 0)
      → ((t : WorkerTaskRecord) → Spares watched (next t) post)
      → Spares watched (λ w. (transact p.connections (m w) >>= unless_stopped next) w) post
  task_then m next post h = record {
    runs = λ w.
        (bind-Spares watched (transact p.connections (m w)) (unless_stopped next) Anything post
            (transact-Spares watched p.connections (m w) Anything (λ a. tt))
            (λ r u. unless_stopped-Spares next r post h)).runs
          w;
  }

  OnlyFrom-one : (agent : Agent) (j : Json) → OnlyFrom agent ((agent, j) ∷ [])
  OnlyFrom-one agent j other h = rw h refl

  skip_node-Spares :
      (agent : Agent) (s : RunState) (upstream : Outputs) (reason : SkipReason)
      → Spares watched (skip_node p agent s upstream reason) (OnlyFrom agent)
  unfolding skip_node
  skip_node-Spares agent s upstream reason =
      task_then
        (λ w.
          skip_task (p.new_id w.tick)
            (task_input p agent s upstream (some reason) (p.clock w.tick)))
        (λ t. give []) (OnlyFrom agent)
        (λ t. give-Spares watched [] (OnlyFrom agent) (λ other h. refl))

  restore-Spares :
      (agent : Agent) (t : WorkerTaskRecord) → Spares watched (restore p agent t) (OnlyFrom agent)
  unfolding restore
  restore-Spares agent t =
      bind-Spares watched _ _ Anything (OnlyFrom agent)
        (from_result-Spares watched _ Anything (λ a. tt))
        λ restored u. give-Spares watched _ (OnlyFrom agent) (OnlyFrom-one agent restored)

  files_for-Spares : (agent : Agent) (s : RunState) → Spares watched (files_for p agent s) Anything
  unfolding files_for
  files_for-Spares agent s =
      if-Spares watched (reads_files agent) _ _ Anything
        (λ e. transact-Spares watched p.connections _ Anything (λ a. tt))
        (λ e. give-Spares watched [] Anything tt)

  references_for-Spares :
      (agent : Agent) (s : RunState) → Spares watched (references_for p agent s) Anything
  unfolding references_for
  references_for-Spares agent s =
      if-Spares watched (reads_references agent) _ _ Anything (λ e. load_references-Spares s.run_id)
        (λ e. give-Spares watched [] Anything tt)

  called :
      (agent : Agent) (r : Result Json) (w : World)
      → watched agent ≡ false
      → Ends watched Anything w (r, record w { calls = agent ∷ w.calls })
  called agent (returned j) w h = ((rw h refl, refl), tt)
  called agent (raised e) w h = (rw h refl, refl)

  call_agent-Spares :
      (agent : Agent) (input : AgentInput)
      → watched agent ≡ false
      → Spares watched (call_agent p agent input) Anything
  unfolding call_agent
  call_agent-Spares agent input h = record { runs = λ w. called agent (p.execute agent input) w h }

  check_against_bob-Spares :
      (seo : SeoPackage) (o : Option Json) → Spares watched (check_against_bob p seo o) Anything
  unfolding check_against_bob
  check_against_bob-Spares seo none = give-Spares watched tt Anything tt
  check_against_bob-Spares seo (some bob) =
      bind-Spares watched _ _ Anything Anything (from_result-Spares watched _ Anything (λ a. tt))
        λ planned u.
          if-Spares watched (passes_seo_checks planned seo) _ _ Anything
            (λ e. give-Spares watched tt Anything tt) (λ e. raise-Spares watched _ Anything)

  check_output-Spares :
      (agent : Agent) (j : Json) (upstream : Outputs)
      → Spares watched (check_output p agent j upstream) Anything
  unfolding check_output enforce_deterministic_seo_checks
  check_output-Spares agent j upstream =
      if-Spares watched (is_sarah agent) _ _ Anything
        (λ e.
          bind-Spares watched _ _ Anything Anything
            (from_result-Spares watched _ Anything (λ a. tt))
            (λ seo u. check_against_bob-Spares seo _))
        (λ e. give-Spares watched tt Anything tt)

  generated_files-Spares :
      (agent : Agent) (j : Json) → Spares watched (generated_files p agent j) Anything
  unfolding generated_files
  generated_files-Spares agent j =
      if-Spares watched (reads_files agent) _ _ Anything
        (λ e.
          bind-Spares watched _ _ Anything Anything
            (from_result-Spares watched _ Anything (λ a. tt))
            (λ files u. give-Spares watched _ Anything tt))
        (λ e. give-Spares watched none Anything tt)

  completed_with-Spares :
      (agent : Agent) (j : Json) (r : CompleteTaskResult)
      → Spares watched (completed_with agent j r) (OnlyFrom agent)
  unfolding completed_with
  completed_with-Spares agent j CompleteTaskResult.stopped = raise-Spares watched _ _
  completed_with-Spares agent j (CompleteTaskResult.file_conflict c) = raise-Spares watched _ _
  completed_with-Spares agent j (CompleteTaskResult.done t) =
      give-Spares watched _ (OnlyFrom agent) (OnlyFrom-one agent j)

  store_result-Spares :
      (agent : Agent) (s : RunState) (task : ℕ) (j : Json) (files : Option (List GeneratedFile))
      → Spares watched (store_result p agent s task j files) (OnlyFrom agent)
  unfolding store_result
  store_result-Spares agent s task j files = record {
    runs = λ w.
        (bind-Spares watched _ (completed_with agent j) Anything (OnlyFrom agent)
            (transact-Spares watched p.connections _ Anything (λ a. tt))
            (λ r u. completed_with-Spares agent j r)).runs
          w;
  }

  fail_agent-Spares :
      (agent : Agent) (s : RunState) (task : ℕ) (e : List ErrorNode)
      → Spares watched (fail_agent p s task e) (OnlyFrom agent)
  unfolding fail_agent
  fail_agent-Spares agent s task e = record {
    runs = λ w.
        (bind-Spares watched _ _ Anything (OnlyFrom agent)
            (transact-Spares watched p.connections _ Anything (λ a. tt))
            (λ failed u. raise-Spares watched _ (OnlyFrom agent))).runs
          w;
  }

  give_up_agent-Spares :
      (agent : Agent) (s : RunState) (task : ℕ) (e : List ErrorNode)
      → Spares watched (give_up_agent p s task e) (OnlyFrom agent)
  unfolding give_up_agent
  give_up_agent-Spares agent s task e =
      if-Spares watched (starts_stopped e) _ _ (OnlyFrom agent)
        (λ h. raise-Spares watched e (OnlyFrom agent)) (λ h. fail_agent-Spares agent s task e)

  -- From here on the node's own agent is not a watched one.
  module _ (type : ProjectType) (agent : Agent) (s : RunState) (upstream : Outputs)
      (h : watched agent ≡ false) where
    attempt_agent-Spares :
        (task : ℕ) → Spares watched (attempt_agent p type agent s upstream task) (OnlyFrom agent)
    unfolding attempt_agent
    attempt_agent-Spares task =
        bind-Spares watched _ _ Anything (OnlyFrom agent) (files_for-Spares agent s) λ files u.
          bind-Spares watched _ _ Anything (OnlyFrom agent) (references_for-Spares agent s)
            λ references u.
              bind-Spares watched _ _ Anything (OnlyFrom agent) (call_agent-Spares agent _ h)
                λ output u.
                  bind-Spares watched _ _ Anything (OnlyFrom agent)
                    (check_output-Spares agent output upstream)
                    λ checked u.
                      bind-Spares watched _ _ Anything (OnlyFrom agent)
                        (generated_files-Spares agent output)
                        λ generated u. store_result-Spares agent s task output generated

    perform_agent-Spares :
        (t : WorkerTaskRecord)
        → Spares watched (perform_agent p type agent s upstream t) (OnlyFrom agent)
    unfolding perform_agent
    perform_agent-Spares t =
        if-Spares watched (is_completed t.status) _ _ (OnlyFrom agent) (λ e. restore-Spares agent t)
          (λ e.
            catching-Spares watched _ _ (OnlyFrom agent) (attempt_agent-Spares t.id)
              (give_up_agent-Spares agent s t.id))

    start_agent-Spares :
        (t : WorkerTaskRecord)
        → Spares watched (start_agent p type agent s upstream t) (OnlyFrom agent)
    unfolding start_agent
    start_agent-Spares t = record {
      runs = λ w.
          (if-Spares watched (is_completed t.status) _ _ (OnlyFrom agent)
              (λ e. restore-Spares agent t)
              (λ e.
                task_then (λ v. start_task s.run_id s.control_version t.id (p.clock w.tick))
                  (perform_agent p type agent s upstream) (OnlyFrom agent)
                  perform_agent-Spares)).runs
            w;
    }

    node_for-Spares :
        (reason : Option SkipReason)
        → Spares watched (node_for p type agent s upstream reason) (OnlyFrom agent)
    unfolding node_for needed_node
    node_for-Spares none =
        task_then
          (λ w.
            prepare_task (p.new_id w.tick) (task_input p agent s upstream none (p.clock w.tick)))
          (start_agent p type agent s upstream) (OnlyFrom agent) start_agent-Spares
    node_for-Spares (some reason) = skip_node-Spares agent s upstream reason

  pub run_agent-Spares :
      (agent : Agent) (s : RunState)
      → watched agent ≡ false
      → Spares watched (run_agent p agent s) (OnlyFrom agent)
  unfolding run_agent parse_upstream_outputs
  run_agent-Spares agent s h =
      bind-Spares watched _ _ Anything (OnlyFrom agent)
        (parse_agents-Spares s.outputs upstream_agents)
        λ upstream u.
          bind-Spares watched _ _ Anything (OnlyFrom agent)
            (transact-Spares watched p.connections (get_project_type s.project_id) Anything
              (λ a. tt))
            λ type u.
              bind-Spares watched _ _ Anything (OnlyFrom agent) (reason_to_skip-Spares type agent s)
                λ reason u. node_for-Spares type agent s upstream h reason

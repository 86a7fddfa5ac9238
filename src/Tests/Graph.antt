-- ===== src/Tests/Graph.antt =====
-- Graph: the theorems on the run graph and on the processor at work.
use atoms_platform.Common.{◌+◌, ◌≡◌, refl, true, false, none, some, [], ◌∷◌, ◌&&◌, keep}
use atoms_platform.Common.Table.{modify}
use atoms_platform.Store.{
  Agent, Command, ApprovalScope, touch_active_run, update_run_if, append_event, append_row,
  validate_run_event_payload, by_ordinal, insert_task, update_task, latest,
}
use atoms_platform.Worker.Tasks.{prepare_task, start_task}
use atoms_platform.Worker.Completion.{complete_task, complete_active}
use atoms_platform.Worker.Jobs.{
  World, Result, returned, raised, Connections, transact, ◌>>=◌, catching, give, from_result,
}
use atoms_platform.Worker.Agents.{
  parse_next, parse_agents, parse_upstream_outputs, plan_reason_to_skip, reason_to_skip,
  unless_stopped, restore, files_for, load_with, load_references, references_for, call_agent,
  check_against_bob, enforce_deterministic_seo_checks, check_output, generated_files,
  completed_with, store_result, attempt_agent, perform_agent, start_agent, needed_node, node_for,
  run_agent, get_project_type, get_workspace_plan, distinct_paths, list_project_files, to_set,
  count_of, Ports, RunState, output_of,
}
use atoms_platform.Worker.Graph.{
  agent_node, plan_nodes, build_nodes, approval_gate, content_gate, content_approval_gate,
  pass_or_pause, run_graph, is_approve, has_scope,
}
use atoms_platform.Worker.Graph.Plan.{
  builds, IsRaised, references_need_approval, copy_needs_approval,
}
use atoms_platform.Tests.{running_shop}

abbrev calm_connections : Connections
calm_connections = record { others = λ tick db. db; database_error = λ e. [] }

-- Every agent answers with its input's prompt; Mike asks for an approval if his output says so.
abbrev pub ports : Ports
ports = record {
  connections = calm_connections;
  parsers = record {
    parse_david = λ j. some (record {
      has_blocking_finding = false;
      schema_prisma_path = "src/app.ts";
      migration_paths = [];
      seed_path = "seed";
      destructive_changes = 0;
      policy_report = "";
    });
    sha256 = λ s. s;
  };
  clock = λ tick. 100 + tick;
  new_id = λ tick. 500 + tick;
  sort_by_path = λ files. files;
  execute = λ agent i. returned i.prompt;
  loader = some (λ run. returned ("reference" ∷ []));
  encode_input = λ prompt outputs. prompt;
  parse_output = λ agent o. returned "restored";
  requires_approval = λ o. returned false;
  has_copy_variants = λ j. returned true;
  route_paths = λ j. returned [];
  seo_package = λ j. returned (record { route_paths = []; canonical_urls = [] });
  files_of = λ agent j. returned [];
  to_worker_error =
      λ e. record { code = ""; name = none; message = ""; retryable = true; reason = none };
}

abbrev started : RunState
started = record {
  run_id = 1;
  workspace_id = 5;
  project_id = 9;
  prompt = "Build a shop";
  command = Command.start;
  approval_scope = none;
  control_version = 1;
  approval_bypass_consumed = false;
  outputs = [];
}

abbrev pub before : World
before = record { db = running_shop; tick = 0; calls = []; validations = [] }

references_need_approval_example :
    (keep builds (run_graph ports started before).1.calls ≡ [])
    × IsRaised (run_graph ports started before).0
references_need_approval_example =
    references_need_approval ports started before (λ run. returned ("reference" ∷ [])) "reference"
      [] refl refl refl refl

-- A job that approves the content, where the code of Alex was restored.
abbrev approved : RunState
approved = record started {
  command = Command.approve;
  approval_scope = some ApprovalScope.content;
  outputs = (Agent.alex, "restored") ∷ [];
}

abbrev state_of : Result RunState → RunState
state_of (returned t) = t
state_of (raised e) = approved

-- The definitions that a run of the graph goes through.
whole_graph : Unit {0}
unfolding run_graph plan_nodes build_nodes agent_node run_agent parse_upstream_outputs parse_agents
    parse_next get_project_type get_workspace_plan reason_to_skip plan_reason_to_skip node_for
    needed_node unless_stopped start_agent perform_agent restore attempt_agent files_for
    references_for load_references load_with call_agent check_output check_against_bob
    enforce_deterministic_seo_checks generated_files store_result completed_with list_project_files
    distinct_paths approval_gate content_approval_gate content_gate pass_or_pause transact ◌>>=◌
    catching give from_result touch_active_run update_run_if modify append_event append_row
    validate_run_event_payload by_ordinal insert_task update_task prepare_task start_task
    complete_task complete_active to_set count_of
whole_graph = tt

returns :
    run_graph ports approved before
    ≡ (returned (state_of (run_graph ports approved before).0), (run_graph ports approved before).1)
unfolding whole_graph latest
returns = refl

adrian_wrote :
    output_of Agent.adrian (state_of (run_graph ports approved before).0).outputs
    ≡ some "Build a shop"
unfolding whole_graph latest
adrian_wrote = refl

called_in_order :
    (run_graph ports approved before).1.calls
    ≡ Agent.adrian ∷ Agent.sarah ∷ Agent.david ∷ Agent.alex ∷ Agent.bob ∷ Agent.emma ∷ Agent.mike
      ∷ Agent.sophia ∷ []
unfolding whole_graph latest
called_in_order = refl

copy_needs_approval_example :
    (is_approve approved.command && has_scope ApprovalScope.content approved.approval_scope) ≡ true
copy_needs_approval_example =
    copy_needs_approval ports approved (state_of (run_graph ports approved before).0) before
      (run_graph ports approved before).1 "Build a shop" returns adrian_wrote refl

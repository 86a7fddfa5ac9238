-- ===== src/Worker/Graph.antt =====
-- apps/orchestrator-worker/src/graph.ts and project-type.ts: the agents of a run in order, and the
-- gates at which the run waits for an approval.
pub mod Nodes
pub mod Routes
pub mod Gates
pub mod Plan
use atoms_platform.Common.{
  ℕ, ltb, String, Bool, true, false, not, ◌&&◌, ◌||◌, Option, none, some, List, [], ◌∷◌, ◌++◌, ◌==◌,
  if◌then◌else◌, length, is_some, is_none, map,
}
use atoms_platform.Store.{Agent, ApprovalScope, Command, Json}
use atoms_platform.Worker.Runs.{request_approval}
use atoms_platform.Worker.Jobs.{
  Result, returned, Job, from_result, give, raise, ◌>>=◌, stopped_with, Connections, transact,
}
use atoms_platform.Worker.Agents.{RunState, Ports, output_of, run_agent, load_references}

-- A node of the graph: its update is merged into the state.
unfoldable pub agent_node : Ports → Agent → RunState → Job RunState
agent_node p agent s = do
  update ← run_agent p agent s
  give (record s { outputs = update ++ s.outputs })

abbrev pub is_approve : Command → Bool
is_approve Command.approve = true
is_approve _ = false

abbrev pub scope_code : ApprovalScope → ℕ
scope_code ApprovalScope.plan = 0
scope_code ApprovalScope.content = 1

abbrev pub has_scope : ApprovalScope → Option ApprovalScope → Bool
has_scope scope none = false
has_scope scope (some given) = scope_code given == scope_code scope

-- The job approves this scope, and that has not been used yet.
abbrev pub may_bypass : ApprovalScope → RunState → Bool
may_bypass scope s =
    is_approve s.command && has_scope scope s.approval_scope && not s.approval_bypass_consumed

-- `runHasReferences`
unfoldable pub run_has_references : Ports → ℕ → Job Bool
run_has_references p run = do references ← load_references p run; give (ltb 0 (length references))

unfoldable pub pause_for : Ports → ApprovalScope → String → RunState → Job RunState
pause_for p scope reason s w =
    (transact p.connections
          (request_approval s.run_id s.control_version scope reason (p.clock w.tick))
        >>= λ paused. raise (stopped_with (if paused then "PAUSED" else "stopped")))
      w

-- Past the gate with a fresh approval of its scope; else the run is paused.
unfoldable pub pass_or_pause : Ports → ApprovalScope → String → RunState → Job RunState
pass_or_pause p scope reason s =
    if may_bypass scope s
    then give (record s { approval_bypass_consumed = true })
    else pause_for p scope reason s

abbrev pub plan_reason : String
plan_reason = "Approve the product and architecture plan before code generation"

abbrev pub content_reason : String
content_reason = "Approve content variants before applying copy changes"

-- The plan needs an approval if Mike asks for it or the run carries references.
unfoldable pub needs_plan_approval : Ports → Bool → RunState → Job Bool
needs_plan_approval p requires s = if requires then give true else run_has_references p s.run_id

unfoldable pub plan_gate : Ports → Bool → RunState → Job RunState
plan_gate p requires s = do
  needed ← needs_plan_approval p requires s
  if needed then pass_or_pause p ApprovalScope.plan plan_reason s else give s

-- `approvalGate`
unfoldable pub approval_gate : Ports → RunState → Job RunState
approval_gate p s = do
  requires ← from_result (p.requires_approval (output_of Agent.mike s.outputs))
  if is_some (output_of Agent.alex s.outputs) then give s else plan_gate p requires s

unfoldable pub content_gate : Ports → Option Json → RunState → Job RunState
content_gate p none s = give s
content_gate p (some adrian) s = do
  has_copy_variants ← from_result (p.has_copy_variants adrian)
  if has_copy_variants then pass_or_pause p ApprovalScope.content content_reason s else give s

-- `contentApprovalGate`
unfoldable pub content_approval_gate : Ports → RunState → Job RunState
content_approval_gate p s = content_gate p (output_of Agent.adrian s.outputs) s

unfoldable pub plan_nodes : Ports → RunState → Job RunState
plan_nodes p s =
    agent_node p Agent.sophia s
    >>= agent_node p Agent.mike
    >>= agent_node p Agent.emma
    >>= agent_node p Agent.bob

unfoldable pub build_nodes : Ports → RunState → Job RunState
build_nodes p s =
    agent_node p Agent.alex s
    >>= agent_node p Agent.david
    >>= agent_node p Agent.sarah
    >>= agent_node p Agent.adrian

-- The compiled graph, from START to END.
unfoldable pub run_graph : Ports → RunState → Job RunState
run_graph p s = plan_nodes p s >>= approval_gate p >>= build_nodes p >>= content_approval_gate p

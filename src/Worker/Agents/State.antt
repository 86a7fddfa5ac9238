-- ===== src/Worker/Agents/State.antt =====
-- graph.ts and project-type.ts: the state of a run's graph, what it is given, and which agents a
-- project needs.
use atoms_platform.Common.{
  ℕ, String, Bool, true, false, not, ◌||◌, Option, none, some, List, [], ◌∷◌, ◌==◌, if◌then◌else◌,
  keep, str_eq,
}
use atoms_platform.Common.Table.{lookup}
use atoms_platform.Store.{
  Agent, ApprovalScope, Command, ProjectType, WorkspacePlan, Json, File, ErrorJson, Tx, ok,
  or_throw,
}
use atoms_platform.Worker.Errors.{ErrorNode}
use atoms_platform.Worker.Patches.{GeneratedFile}
use atoms_platform.Worker.Completion.{Parsers}
use atoms_platform.Worker.Jobs.{Result, Connections}

abbrev pub Outputs : Type 0
Outputs = List (Agent × Json)

abbrev pub agent_code : Agent → ℕ
agent_code Agent.sophia = 1
agent_code Agent.mike = 2
agent_code Agent.emma = 3
agent_code Agent.bob = 4
agent_code Agent.alex = 5
agent_code Agent.david = 6
agent_code Agent.sarah = 7
agent_code Agent.adrian = 8
agent_code Agent.customer_success = 9

abbrev pub same_agent : Agent → Agent → Bool
same_agent a b = agent_code a == agent_code b

-- The newest entry of an agent counts.
abbrev pub output_of : Agent → Outputs → Option Json
output_of agent [] = none
output_of agent ((a, j) ∷ rest) = if same_agent a agent then some j else output_of agent rest

pub record RunState : Type 0 where
  pub run_id : ℕ
  pub workspace_id : ℕ
  pub project_id : ℕ
  pub prompt : String
  pub command : Command
  pub approval_scope : Option ApprovalScope
  pub control_version : ℕ
  pub approval_bypass_consumed : Bool
  pub outputs : Outputs

-- What an agent is called with.
pub record AgentInput : Type 0 where
  pub run_id : ℕ
  pub prompt : String
  pub upstream_outputs : Outputs
  pub current_files : List File
  pub project_type : ProjectType
  pub reference_attachments : List Json

-- What the deterministic checks read of Sarah's output.
pub record SeoPackage : Type 0 where
  pub route_paths : List String
  pub canonical_urls : List (Option String)

-- What the graph is given: the agents and their schemas, the attachment loader if there is one, the
-- clock and new ids by the number of the transaction, and the order of paths in the database.
pub record Ports : Type 0 where
  pub connections : Connections
  pub parsers : Parsers
  pub clock : ℕ → ℕ
  pub new_id : ℕ → ℕ
  pub sort_by_path : List File → List File
  pub execute : Agent → AgentInput → Result Json
  pub loader : Option (ℕ → Result (List Json))
  pub encode_input : String → Outputs → Json
  pub parse_output : Agent → Option Json → Result Json
  pub requires_approval : Option Json → Result Bool
  pub has_copy_variants : Json → Result Bool
  pub route_paths : Json → Result (List String)
  pub seo_package : Json → Result SeoPackage
  pub files_of : Agent → Json → Result (List GeneratedFile)
  pub to_worker_error : List ErrorNode → ErrorJson

-- The ordinal of an agent's task in `taskDefinitions` is its code; these are the descriptions.
abbrev pub description_of : Agent → String
description_of Agent.sophia =
    "Analyze market, ICP, competition, pricing, positioning, and evidence gaps"
description_of Agent.mike = "Plan the run and dependency graph"
description_of Agent.emma = "Produce structured product requirements"
description_of Agent.bob = "Produce architecture and Prisma schema"
description_of Agent.alex = "Generate application files and commands"
description_of Agent.david = "Review schema and generate migrations, seed data, and data policies"
description_of Agent.sarah = "Generate SEO artifacts and deterministic metadata findings"
description_of Agent.adrian = "Generate growth copy variants and evidence requirements"
description_of Agent.customer_success =
    "Produce onboarding plan, activation milestones, health review, and retention proposals"

abbrev pub is_premium : Agent → Bool
is_premium Agent.sophia = true
is_premium Agent.sarah = true
is_premium Agent.adrian = true
is_premium _ = false

abbrev pub is_free : WorkspacePlan → Bool
is_free WorkspacePlan.free = true
is_free _ = false

-- `isEntitled`
abbrev pub is_entitled : WorkspacePlan → Agent → Bool
is_entitled plan agent = not (is_premium agent) || not (is_free plan)

-- `PROJECT_TYPE_AGENTS`
abbrev pub agents_required_for : ProjectType → List Agent
agents_required_for ProjectType.general =
    Agent.sophia ∷ Agent.mike ∷ Agent.emma ∷ Agent.bob ∷ Agent.alex ∷ Agent.david ∷ Agent.sarah
    ∷ Agent.adrian ∷ []
agents_required_for ProjectType.client_portal =
    Agent.mike ∷ Agent.emma ∷ Agent.bob ∷ Agent.alex ∷ Agent.david ∷ []

abbrev pub has_agent : Agent → List Agent → Bool
has_agent agent [] = false
has_agent agent (a ∷ rest) = same_agent a agent || has_agent agent rest

abbrev pub is_required_for_project_type : ProjectType → Agent → Bool
is_required_for_project_type type agent = has_agent agent (agents_required_for type)

-- `getProjectType` and `getWorkspacePlan`
unfoldable pub get_project_type : ℕ → Tx ProjectType
get_project_type project db =
    or_throw (elim (lookup project db.projects) [ none ↦ none | some r ↦ some r.project_type ]) db

unfoldable pub get_workspace_plan : ℕ → Tx WorkspacePlan
get_workspace_plan workspace db = or_throw (lookup workspace db.plans) db

-- `listProjectFiles`: the rows come newest version first, so the first of a path is its latest.
abbrev pub has_path : String → List File → Bool
has_path path [] = false
has_path path (f ∷ fs) = str_eq f.file_path path || has_path path fs

unfoldable pub distinct_paths : List File → List File
distinct_paths [] = []
distinct_paths (f ∷ fs) = f ∷ keep (λ g. not (str_eq g.file_path f.file_path)) (distinct_paths fs)

unfoldable pub list_project_files : (List File → List File) → ℕ → Tx (List File)
list_project_files sort project db =
    ok (sort (distinct_paths (keep (λ f. f.project_id == project) db.files)), db)

-- ===== src/Worker/Agents.antt =====
-- apps/orchestrator-worker/src/graph.ts: an agent of a run as a node of the graph.
mod State
mod Checks
mod Nodes
unfoldable pub use State.*
unfoldable pub use Checks.*
unfoldable pub use Nodes.*

-- ===== src/Worker.antt =====
-- apps/orchestrator-worker/src/repository.ts: the worker's side of the shared database.
pub mod Runs
pub mod Tasks
pub mod Patches
pub mod Completion
pub mod Sandboxes
pub mod Previews
pub mod Calls
pub mod Errors
pub mod Jobs
pub mod Agents
pub mod Graph
pub mod Processor
pub mod Routes
pub mod Releases

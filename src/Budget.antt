-- ===== src/Budget.antt =====
-- apps/orchestrator-worker/src/model-budget.ts and the cost of a call in
-- packages/model-gateway/src/openai-model-gateway.ts: what a call to a model may cost, and the
-- ledger that bounds it.
pub mod Doubles
pub mod Pricing
pub mod Ledger
pub mod Gateway
pub use Pricing.*
pub use Ledger.*
pub use Gateway.*

-- ===== src/Store.antt =====
-- The database that the control plane and the worker share (packages/db/prisma/schema.prisma, as
-- the repositories use it), and the transactions over it.
mod Sandboxes
mod Model
mod Payloads
mod Transactions
mod Laws
mod Keeps
mod Primitives
mod Rows
mod Files
mod SandboxRows
pub use Sandboxes.*
pub use Model.*
unfoldable pub use Payloads.*
unfoldable pub use Transactions.*
pub use Laws.*
pub use Keeps.*
unfoldable pub use Rows.*
unfoldable pub use Files.*
unfoldable pub use SandboxRows.*
pub use Primitives.*

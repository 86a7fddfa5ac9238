-- ===== src/Control.antt =====
-- apps/control-api/src: the control plane's operations on runs and project files.
pub mod Transition
pub mod Runs
pub mod Creation
pub mod Files
pub mod Start

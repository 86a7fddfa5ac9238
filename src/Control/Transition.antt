-- ===== src/Control/Transition.antt =====
-- app.ts, `resolveRunTransition`, and the buttons that the web client offers
-- (apps/web/src/lib/workspace-state.ts, `availableRunActions`).
pub mod Offered
use atoms_platform.Common.{
  ℕ, Bool, true, false, Option, none, some, List, [], ◌∷◌, if◌then◌else◌, ◌||◌, not, keep,
}
use atoms_platform.Store.{
  RunStatus, pending, running, paused, completed, failed, cancelled, Run, ErrorJson, same_status,
}

pub data RunAction : Type 0 where
  pause resume approve cancel retry : RunAction

-- In a patch a column is left alone (`none`), cleared (`some none`) or set.
pub record RunStatusPatch : Type 0 where
  pub status : RunStatus
  pub paused_at : Option (Option ℕ)
  pub completed_at : Option (Option ℕ)
  pub cancelled_at : Option (Option ℕ)
  pub started_at : Option (Option ℕ)
  pub reminder_sent_at : Option (Option ℕ)
  pub error : Option (Option ErrorJson)

abbrev pub only_status : RunStatus → RunStatusPatch
only_status s = record {
  status = s;
  paused_at = none;
  completed_at = none;
  cancelled_at = none;
  started_at = none;
  reminder_sent_at = none;
  error = none;
}

pub record Transition : Type 0 where
  pub patch : RunStatusPatch
  pub enqueue : Bool

abbrev paused_patch : ℕ → Transition
paused_patch now = record {
  patch = record (only_status paused) { paused_at = some (some now) };
  enqueue = false;
}

abbrev resumed_patch : Transition
resumed_patch = record {
  patch = record (only_status pending) { paused_at = some none; reminder_sent_at = some none };
  enqueue = true;
}

abbrev cancelled_patch : ℕ → Transition
cancelled_patch now = record {
  patch = record (only_status cancelled) { cancelled_at = some (some now) };
  enqueue = false;
}

abbrev retried_patch : Transition
retried_patch = record {
  patch = record (only_status pending) {
    error = some none;
    started_at = some none;
    paused_at = some none;
    completed_at = some none;
    cancelled_at = some none;
  };
  enqueue = true;
}

-- `resolveRunTransition`; `none` is INVALID_RUN_TRANSITION.
unfoldable pub resolve_run_transition :
    RunAction → RunStatus → (occurred_at : ℕ) → Option Transition
resolve_run_transition pause status now =
    if same_status status pending || same_status status running
    then some (paused_patch now)
    else none
resolve_run_transition resume status now =
    if same_status status paused then some resumed_patch else none
resolve_run_transition approve status now =
    if same_status status paused then some resumed_patch else none
resolve_run_transition cancel status now =
    if same_status status pending || same_status status running || same_status status paused
    then some (cancelled_patch now)
    else none
resolve_run_transition retry status now =
    if same_status status failed then some retried_patch else none

-- `availableRunActions`
unfoldable pub available_run_actions : RunStatus → List RunAction
available_run_actions pending = pause ∷ cancel ∷ []
available_run_actions running = pause ∷ cancel ∷ []
available_run_actions paused = approve ∷ resume ∷ cancel ∷ []
available_run_actions failed = retry ∷ []
available_run_actions completed = []
available_run_actions cancelled = []

-- The test of `RunControls` on an action: to approve has a button of its own, which replaces to resume
-- where an approval is asked for.
abbrev pub is_control : (requires_approval : Bool) → RunAction → Bool
is_control requires_approval approve = false
is_control requires_approval resume = not requires_approval
is_control requires_approval action = true

-- The buttons of `RunControls` in apps/web/src/components/workspace-shell.tsx.
unfoldable pub run_controls : RunStatus → (requires_approval : Bool) → List RunAction
unfolding available_run_actions
run_controls status requires_approval =
    keep (is_control requires_approval) (available_run_actions status)

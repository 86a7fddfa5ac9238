-- ===== src/Tests/Runs.antt =====
-- Runs: the theorems on histories, workers and actions at work.
use atoms_platform.Common.{◌≡◌, ◌≢◌, ◌↔◌, ◌-◌, refl, true, false, none, some, arith, map, min}
use atoms_platform.Common.Table.{lookup, modify}
use atoms_platform.Store.{
  RunStatus, Command, Run, Db, ok, update_run_if, IsGapless, IsContiguous, is_final,
}
use atoms_platform.Worker.Runs.{RunJob, RunExecutionRecord, ready, stale, claim_run}
use atoms_platform.Worker.Completion.{Parsers}
use atoms_platform.Worker.Calls.{finish, perform}
use atoms_platform.Worker.Calls.Fencing.{holds, perform_fenced}
use atoms_platform.Control.Transition.{
  cancel, resume, approve, Transition, only_status, resolve_run_transition, available_run_actions,
  run_controls,
}
use atoms_platform.Control.Transition.Offered.{Offers, available_iff, resolve_open}
use atoms_platform.Control.Runs.{
  ActionInput, Request, run_reply, control_run, control_found, act, after_transition, enqueue_run,
  authorized_run, may_access, is_member, events_after, list_run_events_after, transition_run,
  transition_authorized, readable,
}
use atoms_platform.Control.Runs.Replay.{count_up, list_run_events_numbers}
use atoms_platform.System.{History, start, acts}
use atoms_platform.System.Safety.{action_stops_worker, history-IsGapless, history_final}
use atoms_platform.System.Handover.{queued_job_claimable, passed_job_stale}
use atoms_platform.Tests.{run_in, running_shop, paused_shop, finished_shop}

-- The definitions that a request runs through.
request : Unit {0}
unfolding control_run control_found act after_transition enqueue_run transition_run
    transition_authorized update_run_if modify resolve_run_transition authorized_run may_access
    is_member events_after list_run_events_after available_run_actions
request = tt

abbrev env : Parsers
env = record { parse_david = λ s. none; sha256 = λ s. s }

abbrev calm : Request
calm = record {
  now = 20;
  execution_enabled = true;
  queue_accepts = λ job. true;
  queue_error = record {
    code = "QUEUE";
    name = none;
    message = "down";
    retryable = true;
    reason = none;
  };
  others = λ db. db;
}

abbrev quiet : (db : Db) → History db db
quiet db = start db

abbrev cancelling : ActionInput
cancelling = record {
  action = cancel;
  expected_status = some RunStatus.running;
  expected_control_version = some 1;
  approval_scope = none;
}

abbrev cancelled_row : Run
cancelled_row = record (run_in RunStatus.cancelled 2 1) { cancelled_at = some 20 }

cancel_replies : (control_run calm 7 1 cancelling running_shop).result ≡ run_reply 200 cancelled_row
unfolding request
cancel_replies = refl

action_stops_worker_example :
    perform env (finish 1 1 30) (control_run calm 7 1 cancelling running_shop).stored
    ≡ ok (false, (control_run calm 7 1 cancelling running_shop).stored)
action_stops_worker_example =
    action_stops_worker calm 7 1 cancelling running_shop
      (control_run calm 7 1 cancelling running_shop).stored 1 200 cancelled_row quiet refl
      cancel_replies (start (control_run calm 7 1 cancelling running_shop).stored) env
      (finish 1 1 30) refl refl

running_shop-IsGapless : IsGapless running_shop
running_shop-IsGapless k = ground arith

running_shop-IsContiguous : IsContiguous running_shop.files
running_shop-IsContiguous project path = ground arith

history-IsGapless_example :
    IsGapless (control_run calm 7 1 cancelling running_shop).stored
    × IsContiguous (control_run calm 7 1 cancelling running_shop).stored.files
history-IsGapless_example =
    history-IsGapless running_shop (control_run calm 7 1 cancelling running_shop).stored
      running_shop-IsGapless running_shop-IsContiguous (acts calm quiet 7 1 cancelling running_shop)

history_final_example :
    (s : Run) × (lookup 1 (control_run calm 7 1 cancelling finished_shop).stored.runs ≡ some s)
    × (s.status ≡ RunStatus.completed)
    × (s.control_version ≡ 2)
history_final_example =
    history_final 1 finished_shop (control_run calm 7 1 cancelling finished_shop).stored
      (run_in RunStatus.completed 2 0) refl refl (acts calm quiet 7 1 cancelling finished_shop)

abbrev resuming : ActionInput
resuming = record {
  action = resume;
  expected_status = none;
  expected_control_version = none;
  approval_scope = none;
}

abbrev resume_job : RunJob
resume_job = record {
  run_id = 1;
  command = Command.resume;
  control_version = 3;
  approval_scope = none;
}

resume_queued : (control_run calm 7 1 resuming paused_shop).queued ≡ some resume_job
unfolding request
resume_queued = refl

queued_job_claimable_example :
    (row : RunExecutionRecord) × (db' : Db) × (claim_run
        (λ d. d)
        resume_job
        40
        (control_run calm 7 1 resuming paused_shop).stored
      ≡ ok (ready row, db'))
    × (row.id ≡ 1)
    × (row.control_version ≡ 4)
    × (holds 1 4 db' ≡ true)
queued_job_claimable_example =
    queued_job_claimable calm 7 1 resuming paused_shop resume_job 40 resume_queued

abbrev old_job : RunJob
old_job = record { run_id = 1; command = Command.start; control_version = 0; approval_scope = none }

passed_job_stale_example :
    (s : Run) × (lookup 1 paused_shop.runs ≡ some s)
    × (claim_run (λ d. d) old_job 40 paused_shop
        ≡ ok (stale s.status s.control_version, paused_shop))
passed_job_stale_example =
    passed_job_stale old_job 40 paused_shop paused_shop (run_in RunStatus.paused 2 0) (λ d. d) refl
      (omega arith) (start paused_shop)

perform_fenced_example : perform env (finish 1 5 30) running_shop ≡ ok (false, running_shop)
perform_fenced_example = perform_fenced env (finish 1 5 30) running_shop refl

running_readable : readable 7 running_shop (lookup 1 running_shop.runs) ≡ true
unfolding request
running_readable = refl

list_run_events_numbers_example :
    map (λ e. e.sequence) (list_run_events_after 7 1 0 10 running_shop)
    ≡ count_up 0 (min 10 (1 - 0))
list_run_events_numbers_example =
    list_run_events_numbers 7 1 0 10 running_shop running_shop-IsGapless running_readable

available_iff_example :
    (Offers resume (available_run_actions RunStatus.paused)
      ↔ (resolve_run_transition resume RunStatus.paused 20 ≢ none))
    × (Offers resume (run_controls RunStatus.paused true) ↔ (
        (resolve_run_transition resume RunStatus.paused 20 ≢ none)
        × ((resume ≢ approve) × (true ≡ true → resume ≢ resume))))
available_iff_example = available_iff resume RunStatus.paused true 20

abbrev cancelled_patch : Transition
cancelled_patch = record {
  patch = record (only_status RunStatus.cancelled) { cancelled_at = some (some 20) };
  enqueue = false;
}

cancel_resolved : resolve_run_transition cancel RunStatus.running 20 ≡ some cancelled_patch
unfolding request
cancel_resolved = refl

resolve_open_example :
    (is_final RunStatus.running ≡ false)
    × ((false ≡ true) ↔ (RunStatus.cancelled ≡ RunStatus.pending))
    × (RunStatus.cancelled ≢ RunStatus.running)
resolve_open_example = resolve_open cancel RunStatus.running 20 cancelled_patch cancel_resolved

-- ===== src/Control/Runs.antt =====
-- repository.ts and app.ts of the control plane: reading a run, its events, and acting on it.
pub mod Steps
pub mod Replay
pub mod Handover
use atoms_platform.Common.{
  ℕ, zero, suc, String, Bool, true, false, not, ◌&&◌, ◌||◌, Option, none, some, List, [], ◌∷◌, ◌++◌,
  ◌==◌, ltb, take, if◌then◌else◌,
}
use atoms_platform.Common.Table.{lookup}
use atoms_platform.Store.{
  RunStatus, Command, ApprovalScope, Run, Payload, Event, Project, ErrorJson, Db, DbError, Outcome,
  Tx, ok, thrown, pure, ◌>>=◌, find_run, update_run_if, at_version, find_run_or_throw, same_status,
  after,
}
use atoms_platform.Control.Transition.{
  RunAction, pause, resume, approve, cancel, retry, RunStatusPatch, Transition,
  resolve_run_transition,
}
use atoms_platform.Worker.Runs.{RunJob}

-- `memberships: { some: { userId } }` of a workspace.
unfoldable pub is_member : (user workspace : ℕ) → List (ℕ × ℕ) → Bool
is_member user workspace [] = false
is_member user workspace ((u, w) ∷ ms) = u == user && w == workspace || is_member user workspace ms

-- The workspace of a project has the user as a member.
unfoldable pub may_access : (user project : ℕ) → Db → Bool
unfolding is_member
may_access user project db = elim (lookup project db.projects) [
  | none ↦ false
  | some p ↦ is_member user p.workspace_id db.members
]

abbrev visible : ℕ → Db → Option Run → Option Run
visible user db none = none
visible user db (some r) = if may_access user r.project_id db then some r else none

-- `findFirst` of a run by id, in a workspace of the user.
unfoldable pub authorized_run : (user run : ℕ) → Db → Option Run
unfolding may_access
authorized_run user run db = visible user db (lookup run db.runs)

-- The newest event of a run.
unfoldable pub last_event : ℕ → List Event → Option Event
last_event run [] = none
last_event run (e ∷ es) = if e.run_id == run then some e else last_event run es

abbrev approval_of : Option Event → Option (ApprovalScope × String)
approval_of none = none
approval_of (some e) = elim e.payload [
  | Payload.approval_required scope reason ↦ some (scope, reason)
  | _ ↦ none
]

-- `#loadPendingApproval`
unfoldable pub load_pending_approval : ℕ → Db → Option (ApprovalScope × String)
unfolding last_event
load_pending_approval run db = approval_of (last_event run db.events)

abbrev with_approval : ℕ → Db → Option Run → Option (Run × Option (ApprovalScope × String))
with_approval run db none = none
with_approval run db (some r) =
    some (r, if same_status r.status RunStatus.paused then load_pending_approval run db else none)

-- `getRun`: the run and its pending approval.
unfoldable pub get_run : (user run : ℕ) → Db → Option (Run × Option (ApprovalScope × String))
unfolding authorized_run load_pending_approval
get_run user run db = with_approval run db (authorized_run user run db)

-- The events of a run behind a sequence number, oldest first.
unfoldable pub events_after : (run sequence : ℕ) → List Event → List Event
events_after run sequence [] = []
events_after run sequence (e ∷ es) =
    if e.run_id == run && ltb sequence e.sequence
    then events_after run sequence es ++ e ∷ []
    else events_after run sequence es

abbrev pub readable : ℕ → Db → Option Run → Bool
readable user db none = false
readable user db (some r) = may_access user r.project_id db

-- `listRunEventsAfter`
unfoldable pub list_run_events_after : (user run sequence limit : ℕ) → Db → List Event
unfolding may_access events_after
list_run_events_after user run sequence limit db =
    if readable user db (lookup run db.runs)
    then take limit (events_after run sequence db.events)
    else []

abbrev override {ℓ} : {A : Type ℓ} → Option A → A → A
override none old = old
override (some new) old = new

abbrev pub apply_patch : RunStatusPatch → Run → Run
apply_patch p r = record r {
  status = p.status;
  control_version = suc r.control_version;
  paused_at = override p.paused_at r.paused_at;
  completed_at = override p.completed_at r.completed_at;
  cancelled_at = override p.cancelled_at r.cancelled_at;
  started_at = override p.started_at r.started_at;
  error = override p.error r.error;
  reminder_sent_at = override p.reminder_sent_at r.reminder_sent_at;
}

abbrev run_if : Bool → Run → Option Run
run_if true r = some r
run_if false r = none

-- The compare-and-swap of `transitionRun`, once the user may see the run.
unfoldable pub transition_authorized :
    (run : ℕ) → RunStatus → (version : ℕ) → RunStatusPatch → Option Run → Tx (Option Run)
transition_authorized run status version patch none = pure none
transition_authorized run status version patch (some seen) = do
  updated ← update_run_if run (at_version status version) (apply_patch patch)
  if updated then (do r ← find_run_or_throw run; pure (some r)) else pure none

-- `transitionRun`
unfoldable pub transition_run :
    (user run : ℕ) → RunStatus → (version : ℕ) → RunStatusPatch → Tx (Option Run)
unfolding transition_authorized authorized_run
transition_run user run status version patch db =
    transition_authorized run status version patch (authorized_run user run db) db

abbrev pub not_queued : ErrorJson → ℕ → Run → Run
not_queued error now r = record r {
  status = RunStatus.failed;
  completed_at = some now;
  error = some error;
}

-- `markRunFailed`
unfoldable pub mark_run_failed : (run version : ℕ) → ErrorJson → (now : ℕ) → Tx Bool
mark_run_failed run version error now =
    update_run_if run (at_version RunStatus.pending version) (not_queued error now)

pub data ApiResult : Type 0 where
  run_reply : (status_code : ℕ) → Run → ApiResult
  api_error : (status_code : ℕ) → (code : String) → ApiResult

pub record ActionInput : Type 0 where
  pub action : RunAction
  pub expected_status : Option RunStatus
  pub expected_control_version : Option ℕ
  pub approval_scope : Option ApprovalScope

abbrev expects_status : Option RunStatus → RunStatus → Bool
expects_status none s = true
expects_status (some e) s = same_status e s

abbrev expects_version : Option ℕ → ℕ → Bool
expects_version none v = true
expects_version (some e) v = e == v

-- `assertClientPreconditions`
abbrev pub client_preconditions : ActionInput → Run → Bool
client_preconditions i r =
    expects_status i.expected_status r.status
    && expects_version i.expected_control_version r.control_version

abbrev pub command_of : RunAction → Command
command_of approve = Command.approve
command_of retry = Command.retry
command_of _ = Command.resume

abbrev scope_of : ActionInput → Option ApprovalScope
scope_of i = elim i.action [ approve ↦ i.approval_scope | _ ↦ none ]

abbrev pub job_of : ℕ → ActionInput → Run → RunJob
job_of run i updated = record {
  run_id = run;
  command = command_of i.action;
  control_version = updated.control_version;
  approval_scope = scope_of i;
}

-- What the handler does outside the database: the job that it put on the queue, if it did.
pub record Handled : Type 0 where
  pub result : ApiResult
  pub queued : Option RunJob
  pub stored : Db

abbrev pub refuse : ℕ → String → Db → Handled
refuse status code db = record { result = api_error status code; queued = none; stored = db }

-- The environment of one request: the clock, the deployment's switch, whether the queue takes a
-- job, the error that is stored if it does not, and what other connections commit in between.
pub record Request : Type 0 where
  pub now : ℕ
  pub execution_enabled : Bool
  pub queue_accepts : RunJob → Bool
  pub queue_error : ErrorJson
  pub others : Db → Db

-- The changed run is queued, or marked as failed.
unfoldable pub enqueue_run : Request → RunJob → Run → Db → Handled
unfolding mark_run_failed
enqueue_run q job updated db =
    if q.queue_accepts job
    then record { result = run_reply 200 updated; queued = some job; stored = db }
    else refuse 503 "RUN_QUEUE_UNAVAILABLE"
        (after db (mark_run_failed job.run_id job.control_version q.queue_error q.now db))

unfoldable pub after_transition :
    Request → ℕ → ActionInput → Transition → Db → Outcome (Option Run × Db) → Handled
unfolding enqueue_run
after_transition q run i t db (ok (some updated, db')) =
    if t.enqueue
    then enqueue_run q (job_of run i updated) updated db'
    else record { result = run_reply 200 updated; queued = none; stored = db' }
after_transition q run i t db (ok (none, db')) = refuse 409 "RUN_CONCURRENCY_CONFLICT" db'
after_transition q run i t db (thrown e) = refuse 500 "INTERNAL_SERVER_ERROR" db

unfoldable pub act : Request → (user run : ℕ) → ActionInput → Run → Option Transition → Db → Handled
unfolding after_transition transition_run
act q user run i current none db = refuse 409 "INVALID_RUN_TRANSITION" db
act q user run i current (some t) db =
    if t.enqueue && not q.execution_enabled
    then refuse 503 "RUN_EXECUTION_DISABLED" db
    else let db' = q.others db in
      after_transition q run i t db'
        (transition_run user run current.status current.control_version t.patch db')

unfoldable pub control_found : Request → (user run : ℕ) → ActionInput → Db → Option Run → Handled
unfolding act
control_found q user run i db none = refuse 404 "RUN_NOT_FOUND" db
control_found q user run i db (some current) =
    if client_preconditions i current
    then act q user run i current (resolve_run_transition i.action current.status q.now) db
    else refuse 409 "RUN_CONCURRENCY_CONFLICT" db

-- POST /v1/runs/:runId/actions (`controlRun`)
unfoldable pub control_run : Request → (user run : ℕ) → ActionInput → Db → Handled
unfolding control_found
control_run q user run i db = control_found q user run i db (authorized_run user run db)

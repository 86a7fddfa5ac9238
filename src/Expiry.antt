-- ===== src/Expiry.antt =====
-- apps/orchestrator-worker/src/approval-expiry.ts: expiring, reminding and purging runs that stay
-- paused.
pub mod Steps
pub mod Spares
pub mod Untouched
use mathlib.Core.Option
use atoms_platform.Common.{
  ℕ, zero, suc, ◌+◌, ◌-◌, String, Bool, true, false, not, ◌&&◌, Option, none, some, List, [], ◌∷◌,
  ◌==◌, ltb, leb, str_eq, if◌then◌else◌, is_none, take, keep, map, length,
}
use atoms_platform.Common.Table.{Table, lookup}
use atoms_platform.Store.{
  RunStatus, Run, Task, RunAttachment, Payload, ErrorJson, Db, Outcome, Tx, ok, thrown, pure, ◌>>=◌,
  ◌>>◌, update_run_if, update_at, append_event, same_status,
}

-- `APPROVAL_EXPIRED_CODE` and `PURGE_REDACTION_MARKER`
abbrev pub approval_expired_code : String
approval_expired_code = "APPROVAL_EXPIRED"

abbrev pub purge_redaction_marker : String
purge_redaction_marker =
    "[redacted: retention period elapsed -- see docs/design-partner-runbook.md]"

-- `expiredError`
abbrev pub expired_error : ErrorJson
expired_error = record {
  code = approval_expired_code;
  name = some "ApprovalExpired";
  message =
      "The run was paused longer than the allowed time and was cancelled. Start a new run to continue.";
  retryable = false;
  reason = none;
}

-- `{ not: null, lt: limit }`
abbrev pub is_before : ℕ → Option ℕ → Bool
is_before limit none = false
is_before limit (some t) = ltb t limit

abbrev time_of : Option ℕ → ℕ
time_of none = 0
time_of (some t) = t

unfoldable pub insert_by : (Run → Option ℕ) → ℕ × Run → Table Run → Table Run
insert_by column e [] = e ∷ []
insert_by column e (f ∷ t) =
    if leb (time_of (column e.1)) (time_of (column f.1))
    then e ∷ f ∷ t
    else f ∷ insert_by column e t

-- `orderBy` a time column, ascending.
unfoldable pub order_by : (Run → Option ℕ) → Table Run → Table Run
unfolding insert_by
order_by column [] = []
order_by column (e ∷ t) = insert_by column e (order_by column t)

-- `findMany` with `where`, `orderBy` and `take`.
abbrev find_runs : (Run → Bool) → (Run → Option ℕ) → ℕ → Table Run → Table Run
find_runs guard column limit t = take limit (order_by column (keep (λ e. guard e.1) t))

abbrev pub is_stale : ℕ → Run → Bool
is_stale paused_before r =
    same_status r.status RunStatus.paused && is_before paused_before r.paused_at

abbrev pub expire_at : ℕ → Run → Run
expire_at now r = record r {
  status = RunStatus.cancelled;
  cancelled_at = some now;
  control_version = suc r.control_version;
  error = some expired_error;
}

abbrev pub cons_if : Bool → ℕ → List ℕ → List ℕ
cons_if b id ids = if b then id ∷ ids else ids

-- What a batch answers, `none` for an error, and the database that it leaves.
abbrev pub Batch : Type 0
Batch = Option (List ℕ) × Db

abbrev and_done : Bool → ℕ → Batch → Batch
and_done done id (rest, db) = (Option.map (cons_if done id) rest, db)

-- An error ends the batch, but takes back only the transaction that it is raised in.
abbrev pub then_rest : ℕ → Db → Outcome (Bool × Db) → (Db → Batch) → Batch
then_rest id db (thrown e) rest = (none, db)
then_rest id db (ok (done, db')) rest = and_done done id (rest db')

-- The statements for each candidate, each in a transaction of its own; other connections commit
-- before each of them.
unfoldable pub for_each : (Db → Db) → (ℕ × Run → Tx Bool) → Table Run → Db → Batch
for_each others step [] db = (some [], db)
for_each others step (c ∷ cs) db =
    then_rest c.0 (others db) (step c (others db)) (for_each others step cs)

-- One candidate of `expirePausedRuns`: a compare-and-swap at the version it was seen at.
unfoldable pub expire_one : (now : ℕ) → ℕ × Run → Tx Bool
expire_one now (id, seen) = update_at id RunStatus.paused seen.control_version (expire_at now)

-- `expirePausedRuns`
unfoldable pub expire_paused_runs : (Db → Db) → (paused_before now limit : ℕ) → Db → Batch
unfolding for_each expire_one order_by
expire_paused_runs others paused_before now limit db =
    for_each others (expire_one now)
      (find_runs (is_stale paused_before) (λ r. r.paused_at) limit db.runs) db

-- `a ?? b`
abbrev pub or_now : Option ℕ → ℕ → ℕ
or_now none now = now
or_now (some t) now = t

abbrev pub awaits_reminder : Run → Bool
awaits_reminder r = same_status r.status RunStatus.paused && is_none r.reminder_sent_at

abbrev pub remind_at : ℕ → Run → Run
remind_at now r = record r { reminder_sent_at = some now }

-- One candidate of `sendReminders`, in a transaction of its own.
unfoldable pub remind_one : (now : ℕ) → ℕ × Run → Tx Bool
remind_one now (id, seen) = do
  updated ← update_run_if id awaits_reminder (remind_at now)
  if updated
      then append_event id (Payload.approval_reminder_due (or_now seen.paused_at now)) >> pure true
      else pure false

-- `sendReminders`
unfoldable pub send_reminders : (Db → Db) → (paused_before now limit : ℕ) → Db → Batch
unfolding for_each remind_one order_by
send_reminders others paused_before now limit db =
    for_each others (remind_one now)
      (find_runs (λ r. is_stale paused_before r && is_none r.reminder_sent_at) (λ r. r.paused_at)
        limit db.runs)
      db

abbrev has_code : String → Option ErrorJson → Bool
has_code code none = false
has_code code (some e) = str_eq e.code code

-- The `where` of `purgeExpiredRunData`.
abbrev pub is_purgeable : ℕ → Run → Bool
is_purgeable cancelled_before r =
    same_status r.status RunStatus.cancelled
    && is_none r.purged_at
    && is_before cancelled_before r.cancelled_at
    && has_code approval_expired_code r.error

abbrev pub awaits_purge : Run → Bool
awaits_purge r = same_status r.status RunStatus.cancelled && is_none r.purged_at

abbrev pub purge_at : ℕ → Run → Run
purge_at now r = record r {
  prompt = purge_redaction_marker;
  checkpoint = none;
  purged_at = some now;
}

abbrev clear_task : ℕ → ℕ × Task → ℕ × Task
clear_task run (id, t) =
    if t.run_id == run then (id, record t { input = none; output = none }) else (id, t)

-- `updateMany` on agent_tasks and `deleteMany` on the links to attachments.
unfoldable pub clear_data : ℕ → Tx (Unit {0})
clear_data run db = ok (
  tt,
  record db {
    tasks = map (clear_task run) db.tasks;
    run_attachments = keep (λ a. not (a.run_id == run)) db.run_attachments;
  },
)

-- One candidate of `purgeExpiredRunData`, in a transaction of its own.
unfoldable pub purge_one : (now : ℕ) → ℕ × Run → Tx Bool
unfolding clear_data
purge_one now (id, seen) = do
  updated ← update_run_if id awaits_purge (purge_at now)
  if updated
      then (clear_data id
          >> (append_event id (Payload.data_purged (or_now seen.cancelled_at now)) >> pure true))
      else pure false

-- `purgeExpiredRunData`
unfoldable pub purge_expired_run_data : (Db → Db) → (cancelled_before now limit : ℕ) → Db → Batch
unfolding for_each purge_one order_by
purge_expired_run_data others cancelled_before now limit db =
    for_each others (purge_one now)
      (find_runs (is_purgeable cancelled_before) (λ r. r.cancelled_at) limit db.runs) db

abbrev count_batch : ℕ → ℕ × Db → ℕ × Db
count_batch n (total, db) = (n + total, db)

-- A short batch, or an error, is the last.
abbrev pub next_batch : (limit : ℕ) → Batch → (Db → ℕ × Db) → ℕ × Db
next_batch limit (none, db) rest = (0, db)
next_batch limit (some ids, db) rest =
    if ltb (length ids) limit then (length ids, db) else count_batch (length ids) (rest db)

-- The loop of the three `sweepOnce`s.
unfoldable pub sweep : (limit batches : ℕ) → (Db → Batch) → Db → ℕ × Db
sweep limit zero step db = (0, db)
sweep limit (suc batches) step db = next_batch limit (step db) (sweep limit batches step)

-- `MAX_BATCHES_PER_SWEEP`
abbrev pub max_batches_per_sweep : ℕ
max_batches_per_sweep = 10

-- `ApprovalExpirySweeper.sweepOnce`
unfoldable pub expiry_sweep_once : (Db → Db) → (ttl now batch_size : ℕ) → Db → ℕ × Db
unfolding sweep expire_paused_runs
expiry_sweep_once others ttl now batch_size db =
    sweep batch_size max_batches_per_sweep (expire_paused_runs others (now - ttl) now batch_size) db

-- `ApprovalReminderSweeper.sweepOnce`
unfoldable pub reminder_sweep_once : (Db → Db) → (after now batch_size : ℕ) → Db → ℕ × Db
unfolding sweep send_reminders
reminder_sweep_once others after now batch_size db =
    sweep batch_size max_batches_per_sweep (send_reminders others (now - after) now batch_size) db

-- `RunDataPurgeSweeper.sweepOnce`
unfoldable pub purge_sweep_once : (Db → Db) → (after now batch_size : ℕ) → Db → ℕ × Db
unfolding sweep purge_expired_run_data
purge_sweep_once others after now batch_size db =
    sweep batch_size max_batches_per_sweep
      (purge_expired_run_data others (now - after) now batch_size) db

-- ===== src/Control/Start/Queued.antt =====
-- `createRun`: the laws of the store, and the queued job.

use atoms_platform.Common.{
  ℕ, ◌≡◌, refl, String, true, false, some, str_eq, inl, inr, Bool-cases, if_both, subst,
}
use atoms_platform.Common.Table.{lookup}
use atoms_platform.Store.{
  RunStatus, Run, Db, Outcome, ok, thrown, unique_violation, not_found, fault, Lawful, Lawful-refl,
  Lawful-trans, Leads,
}
use atoms_platform.Worker.Runs.{RunJob}
use atoms_platform.Control.Runs.{Handled, Request, refuse}
use atoms_platform.Control.Runs.Steps.{mark_run_failed-IsLawful, after-Lawful}
use atoms_platform.Control.Creation.{
  CreateRunInput, CreateRunResult, project_not_found, idempotency_conflict, created,
  create_run_with_idempotency,
}
use atoms_platform.Control.Creation.Replays.{create_run-IsLawful}
use atoms_platform.Control.Start.Fresh.{Fresh, create_run-Fresh}
use atoms_platform.Control.Start.{start_job, enqueue_start, start_created, start_result, start_run}

enqueue_start-Lawful :
    (q : Request) (id : ℕ) (r : Run) (db : Db) → Lawful db (enqueue_start q id r db).stored
unfolding enqueue_start
enqueue_start-Lawful q id r db =
    if_both (λ (h : Handled). Lawful db h.stored) (q.queue_accepts (start_job id r))
      {x = record { result = _; queued = some (start_job id r); stored = db }} (Lawful-refl db)
      (after-Lawful db _
        ((mark_run_failed-IsLawful id r.control_version q.queue_error q.now).runs db))

start_created-Lawful :
    (q : Request) (result : CreateRunResult) (db : Db)
    → Lawful db (start_created q result db).stored
unfolding start_created
start_created-Lawful q project_not_found db = Lawful-refl db
start_created-Lawful q (idempotency_conflict id r) db = Lawful-refl db
start_created-Lawful q (created id r true) db = Lawful-refl db
start_created-Lawful q (created id r false) db = enqueue_start-Lawful q id r db

start_result-Lawful :
    (q : Request) (db : Db) (o : Outcome (CreateRunResult × Db))
    → Leads db o
    → Lawful db (start_result q db o).stored
unfolding start_result
start_result-Lawful q db (ok (result, db')) h = Lawful-trans h (start_created-Lawful q result db')
start_result-Lawful q db (thrown not_found) h = Lawful-refl db
start_result-Lawful q db (thrown unique_violation) h = Lawful-refl db
start_result-Lawful q db (thrown (fault e)) h =
    if_both (λ (h : Handled). Lawful db h.stored) (str_eq e "RepositoryAttachmentError")
      (Lawful-refl db) (Lawful-refl db)

pub start_run-Lawful :
    (q : Request) (new_id : ℕ) (i : CreateRunInput) (db : Db)
    → ((d : Db) → Lawful d (q.others d))
    → Lawful db (start_run q new_id i db).stored
unfolding start_run
start_run-Lawful q new_id i db keeps =
    if_both (λ (h : Handled). Lawful db h.stored) q.execution_enabled
      (start_result-Lawful q db (create_run_with_idempotency q.others new_id i db)
        ((create_run-IsLawful q.others keeps new_id i).runs db))
      (Lawful-refl db)

-- The queued job names a run that is there, PENDING at the job's version.
abbrev pub Waiting : RunJob → Db → Type 0
Waiting job db =
    (r : Run) × (lookup job.run_id db.runs ≡ some r)
    × (r.status ≡ RunStatus.pending)
    × (r.control_version ≡ job.control_version)

abbrev Queues : Handled → Type 0
Queues h = (job : RunJob) → h.queued ≡ some job → Waiting job h.stored

refuse-Queues : (status : ℕ) (code : String) (db : Db) → Queues (refuse status code db)
refuse-Queues status code db job e = absurd (cc e)

enqueue_start-Queues :
    (q : Request) (id : ℕ) (r : Run) (db : Db)
    → lookup id db.runs ≡ some r
    → r.status ≡ RunStatus.pending
    → Queues (enqueue_start q id r db)
unfolding enqueue_start
enqueue_start-Queues q id r db found waits = elim (Bool-cases (q.queue_accepts (start_job id r))) [
  | inl taken ↦ rw taken (λ job e.
      let same : start_job id r ≡ job = cc e in
      subst (λ j. Waiting j db) same (r, found, waits, refl))
  | inr full ↦ rw full (λ job e. absurd (cc e))
]

start_result-Queues :
    (q : Request) (db : Db) (o : Outcome (CreateRunResult × Db))
    → Fresh o
    → Queues (start_result q db o)
unfolding start_result start_created
start_result-Queues q db (ok (project_not_found, b)) h = refuse-Queues 404 "PROJECT_NOT_FOUND" b
start_result-Queues q db (ok (idempotency_conflict id r, b)) h =
    refuse-Queues 409 "IDEMPOTENCY_KEY_CONFLICT" b
start_result-Queues q db (ok (created id r true, b)) h = λ job e. absurd (cc e)
start_result-Queues q db (ok (created id r false, b)) h = enqueue_start-Queues q id r b h.0 h.1
start_result-Queues q db (thrown not_found) h = refuse-Queues 500 "INTERNAL_SERVER_ERROR" db
start_result-Queues q db (thrown unique_violation) h = refuse-Queues 500 "INTERNAL_SERVER_ERROR" db
start_result-Queues q db (thrown (fault e)) h =
    if_both Queues (str_eq e "RepositoryAttachmentError")
      (refuse-Queues 409 "RUN_ATTACHMENTS_NOT_READY" db)
      (refuse-Queues 500 "INTERNAL_SERVER_ERROR" db)

pub start_run-Waiting :
    (q : Request) (new_id : ℕ) (i : CreateRunInput) (db : Db) (job : RunJob)
    → (start_run q new_id i db).queued ≡ some job
    → Waiting job (start_run q new_id i db).stored
unfolding start_run
start_run-Waiting q new_id i db job =
    if_both Queues q.execution_enabled
      (start_result-Queues q db (create_run_with_idempotency q.others new_id i db)
        (create_run-Fresh q.others i new_id db))
      (refuse-Queues 503 "RUN_EXECUTION_DISABLED" db) job

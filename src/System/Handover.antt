-- ===== src/System/Handover.antt =====
-- From the control plane to a worker: the jobs that are queued, and claiming them.

use atoms_platform.Common.{
  ℕ, suc, ◌<◌, ◌≡◌, refl, ap, ◌∙◌, subst, true, some, List, ◌∷◌, ==_iff, arith,
}
use atoms_platform.Common.Table.{lookup, modify, lookup-modify}
use atoms_platform.Store.{
  Formats, Command, append_event_found, validate_run_event_payload, RunStatus, Run, Payload, Event,
  Db, ok, bind_eq, find_run_or_throw, append_event, bump_sequence, next_event, at_version,
  update_run_if, update_run_if_hit,
}
use atoms_platform.Worker.Runs.{
  RunJob, ready, stale, RunExecutionRecord, to_run_execution_record, claim, claim_won,
  claim_pending, claim_found, claim_run,
}
use atoms_platform.Worker.Calls.Fencing.{holds}
use atoms_platform.Control.Runs.{ActionInput, Request, control_run}
use atoms_platform.Control.Runs.Handover.{control_run-Settled}
use atoms_platform.Control.Creation.{CreateRunInput}
use atoms_platform.Control.Start.{start_run}
use atoms_platform.Control.Start.Queued.{start_run-Waiting}
use atoms_platform.System.{History}
use atoms_platform.System.Safety.{History-Lawful, later_row}

modify_self :
    (run : ℕ) (change : Run → Run) (db : Db) (r : Run)
    → lookup run db.runs ≡ some r
    → lookup run (modify run change db.runs) ≡ some (change r)
modify_self run change db r e =
    lookup-modify run run change db.runs ∙ rw ((==_iff run run).1 refl, e) refl

status_changed_valid :
    (f : Formats) (from to : RunStatus) (c : Command) (version : ℕ)
    → validate_run_event_payload f (Payload.status_changed from to c version)
      ≡ some (Payload.status_changed from to c version)
unfolding validate_run_event_payload
status_changed_valid f from to c version = refl

find_found :
    (run : ℕ) (db : Db) (r : Run)
    → lookup run db.runs ≡ some r
    → find_run_or_throw run db ≡ ok (r, db)
find_found run db r e = rw e

module _ (job : RunJob) (now : ℕ) (db : Db) (r : Run) (found : lookup job.run_id db.runs ≡ some r)
    (waits : r.status ≡ RunStatus.pending) (at : r.control_version ≡ job.control_version) where
  abbrev claimed : Db
  claimed = record db { runs = modify job.run_id (claim r now) db.runs }

  claimed_row : lookup job.run_id claimed.runs ≡ some (claim r now r)
  claimed_row = modify_self job.run_id (claim r now) db r found

  held_after :
      (events : List Event)
      → holds job.run_id
          (suc job.control_version)
          (record claimed { runs = modify job.run_id bump_sequence claimed.runs; events = events })
        ≡ true
  held_after events =
      rw (modify_self job.run_id bump_sequence claimed (claim r now r) claimed_row)
        (ground (arith, at))

  abbrev logged : Db
  logged = record claimed {
    runs = modify job.run_id bump_sequence claimed.runs;
    events =
        next_event job.run_id (claim r now r) (
          Payload.status_changed RunStatus.pending RunStatus.running job.command
            (suc r.control_version))
        ∷ claimed.events;
  }

  won_eq :
      claim_won job claimed
      ≡ ok (ready (to_run_execution_record job.run_id (claim r now r)), logged)
  unfolding claim_won
  won_eq =
      bind_eq (find_run_or_throw job.run_id) _ claimed
        (find_found job.run_id claimed (claim r now r) claimed_row)
      ∙ bind_eq (append_event job.run_id _) _ claimed (
          append_event_found job.run_id _ _ claimed (claim r now r)
            (status_changed_valid claimed.formats _ _ _ _) claimed_row)

  pending_eq : claim_pending (λ d. d) job now r db ≡ claim_won job claimed
  unfolding claim_pending
  pending_eq =
      bind_eq
        (update_run_if job.run_id (at_version RunStatus.pending job.control_version) (claim r now))
        _ db (update_run_if_hit job.run_id _ _ db (rw found (ground (arith, waits, at))))

  claim_eq : claim_run (λ d. d) job now db ≡ claim_pending (λ d. d) job now r db
  unfolding claim_run claim_found
  claim_eq = rw (found, waits, at, (==_iff job.control_version job.control_version).1 refl) refl

  claim_won_at :
      claim_run (λ d. d) job now db
      ≡ ok (ready (to_run_execution_record job.run_id (claim r now r)), logged)
  claim_won_at = claim_eq ∙ (pending_eq ∙ won_eq)

-- The job that an accepted action queues can be claimed: if nothing else happens in between, the
-- worker that takes it gets the run, and holds it at the control version after the job's.
pub queued_job_claimable :
    (q : Request) (user run : ℕ) (i : ActionInput) (db : Db) (job : RunJob) (now : ℕ)
    → (control_run q user run i db).queued ≡ some job
    → (row : RunExecutionRecord) × (db' : Db) × (claim_run
          (λ d. d)
          job
          now
          (control_run q user run i db).stored
        ≡ ok (ready row, db'))
      × (row.id ≡ run)
      × (row.control_version ≡ suc job.control_version)
      × (holds run (suc job.control_version) db' ≡ true)
queued_job_claimable q user run i db job now queued =
    let (named, r, found, waits, at) = (control_run-Settled q run i user db).claimable job queued in
    let stored = (control_run q user run i db).stored in
    let job_found : lookup job.run_id stored.runs ≡ some r = rw named found in
    (
      to_run_execution_record job.run_id (claim r now r),
      logged job now stored r job_found waits at,
      claim_won_at job now stored r job_found waits at,
      named,
      ap suc at,
      subst
          (λ k.
            holds k (suc job.control_version) (logged job now stored r job_found waits at) ≡ true)
          named
          (held_after job now stored r job_found waits at
            (logged job now stored r job_found waits at).events),
    )

-- The job that creating a run queues can be claimed: if nothing else happens in between, the worker
-- that takes it gets the run, and holds it at the control version after the job's.
pub started_job_claimable :
    (q : Request) (new_id : ℕ) (i : CreateRunInput) (db : Db) (job : RunJob) (now : ℕ)
    → (start_run q new_id i db).queued ≡ some job
    → (row : RunExecutionRecord) × (db' : Db) × (claim_run
          (λ d. d)
          job
          now
          (start_run q new_id i db).stored
        ≡ ok (ready row, db'))
      × (row.id ≡ job.run_id)
      × (row.control_version ≡ suc job.control_version)
      × (holds job.run_id (suc job.control_version) db' ≡ true)
started_job_claimable q new_id i db job now queued =
    let (r, found, waits, at) = start_run-Waiting q new_id i db job queued in
    let stored = (start_run q new_id i db).stored in
    (
      to_run_execution_record job.run_id (claim r now r),
      logged job now stored r found waits at,
      claim_won_at job now stored r found waits at,
      refl,
      ap suc at,
      held_after job now stored r found waits at (logged job now stored r found waits at).events,
    )

-- A job whose run has moved on, past the version that claiming it would give, is stale in every
-- later history: the claim says so and writes nothing.
pub passed_job_stale :
    (job : RunJob) (now : ℕ) (a b : Db) (r : Run) (others : Db → Db)
    → lookup job.run_id a.runs ≡ some r
    → suc job.control_version < r.control_version
    → History a b
    → (s : Run) × (lookup job.run_id b.runs ≡ some s)
      × (claim_run others job now b ≡ ok (stale s.status s.control_version, b))
unfolding claim_run claim_found
passed_job_stale job now a b r others found past h =
    let (s, there, step) = later_row job.run_id a b r (History-Lawful h) found in
    (s, there, rw there (ground (arith, past, step.version_grows)))

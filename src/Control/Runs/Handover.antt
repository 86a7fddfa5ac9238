-- ===== src/Control/Runs/Handover.antt =====
-- `controlRun`: its answer, the stored run and the queued job.

use atoms_platform.Common.{
  ℕ, String, ◌≡◌, ◌≢◌, refl, ap, ◌∙◌, sym, true, false, not, ◌&&◌, inl, inr, Option, none, some,
  ==_iff, arith, Bool-cases, Option-cases,
}
use atoms_platform.Common.Table.{lookup, modify, lookup-modify}
use atoms_platform.Store.{
  RunStatus, Run, Db, Outcome, ok, thrown, matches, bind_eq, at_version, update_run_if,
  update_run_if_hit, update_run_if_miss, find_run_or_throw,
}
use atoms_platform.Worker.Runs.{RunJob}
use atoms_platform.Control.Transition.{
  RunAction, pause, RunStatusPatch, Transition, resolve_run_transition,
}
use atoms_platform.Control.Transition.Offered.{resolve_open}
use atoms_platform.Control.Runs.{
  apply_patch, authorized_run, transition_authorized, transition_run, ActionInput, run_reply,
  client_preconditions, job_of, Handled, Request, refuse, enqueue_run, after_transition, act,
  control_found, control_run,
}

lookup-modify_self :
    (run : ℕ) (change : Run → Run) (db : Db) (r : Run)
    → lookup run db.runs ≡ some r
    → lookup run (modify run change db.runs) ≡ some (change r)
lookup-modify_self run change db r e =
    lookup-modify run run change db.runs ∙ rw ((==_iff run run).1 refl, e) refl

-- The row of the run, as a change left it.
record Changed (run : ℕ) (patch : RunStatusPatch) (u : Run) (db : Db) : Type 0 where
  found : lookup run db.runs ≡ some u
  status : u.status ≡ patch.status

find_found :
    (run : ℕ) (db : Db) (r : Run)
    → lookup run db.runs ≡ some r
    → find_run_or_throw run db ≡ ok (r, db)
find_found run db r e = rw e

abbrev patched : ℕ → RunStatusPatch → Db → Db
patched run patch db = record db { runs = modify run (apply_patch patch) db.runs }

module _ (run : ℕ) (status : RunStatus) (version : ℕ) (patch : RunStatusPatch) (seen : Run)
    (db : Db) where
  swap_hit :
      (r : Run)
      → lookup run db.runs ≡ some r
      → at_version status version r ≡ true
      → transition_authorized run status version patch (some seen) db
        ≡ ok (some (apply_patch patch r), patched run patch db)
  unfolding transition_authorized
  swap_hit r found hit =
      bind_eq (update_run_if run (at_version status version) (apply_patch patch)) _ db
        (update_run_if_hit run _ _ db (rw found hit))
      ∙ bind_eq (find_run_or_throw run) _ (patched run patch db) (
          find_found run (patched run patch db) (apply_patch patch r)
            (lookup-modify_self run (apply_patch patch) db r found))

  swap_miss :
      matches (at_version status version) (lookup run db.runs) ≡ false
      → transition_authorized run status version patch (some seen) db ≡ ok (none, db)
  unfolding transition_authorized
  swap_miss miss =
      bind_eq (update_run_if run (at_version status version) (apply_patch patch)) _ db
        (update_run_if_miss run _ _ db miss)

  Changed-by :
      (r u : Run) (db' : Db)
      → lookup run db.runs ≡ some r
      → ◌≡◌ {A = Outcome (Option Run × Db)}
          (ok (some u, db'))
          (ok (some (apply_patch patch r), patched run patch db))
      → Changed run patch u db'
  Changed-by r u db' found same =
      let stored : db' ≡ patched run patch db = cc in
      let row : u ≡ apply_patch patch r = cc in
      record {
        found = rw (stored, row) (lookup-modify_self run (apply_patch patch) db r found);
        status = ap (λ (v : Run). v.status) row;
      }

  swap-Changed :
      (u : Run) (db' : Db)
      → transition_authorized run status version patch (some seen) db ≡ ok (some u, db')
      → Changed run patch u db'
  swap-Changed u db' e = elim (Option-cases (lookup run db.runs)) [
    | inl missing ↦ absurd (cc (sym e ∙ swap_miss (rw missing)))
    | inr (r, found) ↦ elim (Bool-cases (at_version status version r)) [
      | inl hit ↦ Changed-by r u db' found (sym e ∙ swap_hit r found hit)
      | inr miss ↦ absurd (cc (sym e ∙ swap_miss (rw found miss)))
    ]
  ]

abbrev NotRunning : RunStatus → Type 0
NotRunning s = s ≢ RunStatus.running

-- An accepted action never leaves the run RUNNING.
resolve_not_running :
    (action : RunAction) (status : RunStatus) (now : ℕ) (t : Transition)
    → resolve_run_transition action status now ≡ some t
    → t.patch.status ≢ RunStatus.running
unfolding resolve_run_transition
resolve_not_running pause status now t e = λ q. ground arith
resolve_not_running a status now t e = λ q. ground arith

-- What an answer promises: a reply shows the stored run, which is not RUNNING, and a queued job
-- names the run, PENDING at the job's version.
pub record Settled (run : ℕ) (h : Handled) : Type 0 where
  pub replied :
      (code : ℕ) (r : Run)
      → h.result ≡ run_reply code r
      → (lookup run h.stored.runs ≡ some r) × (r.status ≢ RunStatus.running)
  pub claimable :
      (job : RunJob)
      → h.queued ≡ some job
      → (job.run_id ≡ run)
        × (r : Run) × (lookup run h.stored.runs ≡ some r)
        × (r.status ≡ RunStatus.pending)
        × (r.control_version ≡ job.control_version)

refuse-Settled : (run status : ℕ) (code : String) (db : Db) → Settled run (refuse status code db)
refuse-Settled run status code db = record {
  replied = λ c r e. absurd (cc e);
  claimable = λ job e. absurd (cc e);
}

accept-Settled :
    (run : ℕ) (u : Run) (queued : Option RunJob) (db : Db)
    → lookup run db.runs ≡ some u
    → u.status ≢ RunStatus.running
    → ((job : RunJob)
        → queued ≡ some job
        → (job.run_id ≡ run)
          × (u.status ≡ RunStatus.pending)
          × (u.control_version ≡ job.control_version))
    → Settled run (record { result = run_reply 200 u; queued = queued; stored = db })
accept-Settled run u queued db found stopped claim = record {
  replied = λ c r e. let same : u ≡ r = cc e in (found ∙ ap some same, rw (← same) stopped);
  claimable =
      λ job e. let (named, waits, version) = claim job e in (named, u, found, waits, version);
}

module _ (q : Request) (run : ℕ) (i : ActionInput) where
  enqueue_run-Settled :
      (u : Run) (db : Db)
      → lookup run db.runs ≡ some u
      → u.status ≡ RunStatus.pending
      → Settled run (enqueue_run q (job_of run i u) u db)
  unfolding enqueue_run
  enqueue_run-Settled u db found waits = elim (Bool-cases (q.queue_accepts (job_of run i u))) [
    | inl taken ↦ rw taken (
        accept-Settled run u (some (job_of run i u)) db found (λ r. cc (sym waits ∙ r))
          (λ job e. let same : job_of run i u ≡ job = cc e in rw (← same) (refl, waits, refl)))
    | inr full ↦ rw full (refuse-Settled run 503 "RUN_QUEUE_UNAVAILABLE" _)
  ]

  after_transition-Settled :
      (t : Transition) (db : Db) (o : Outcome (Option Run × Db))
      → (t.enqueue ≡ true → t.patch.status ≡ RunStatus.pending)
      → t.patch.status ≢ RunStatus.running
      → ((u : Run) (db' : Db) → o ≡ ok (some u, db') → Changed run t.patch u db')
      → Settled run (after_transition q run i t db o)
  unfolding after_transition
  after_transition-Settled t db (ok (some u, db')) waits stopped changed =
      let c = changed u db' refl in
      elim (Bool-cases t.enqueue) [
        | inl queue ↦ rw queue (enqueue_run-Settled u db' c.found (c.status ∙ waits queue))
        | inr quiet ↦ rw quiet (
            accept-Settled run u none db' c.found (λ r. stopped (sym c.status ∙ r))
              (λ job e. absurd (cc e)))
      ]
  after_transition-Settled t db (ok (none, db')) waits stopped changed =
      refuse-Settled run 409 "RUN_CONCURRENCY_CONFLICT" db'
  after_transition-Settled t db (thrown e) waits stopped changed =
      refuse-Settled run 500 "INTERNAL_SERVER_ERROR" db

  transition-Changed :
      (status : RunStatus) (version : ℕ) (patch : RunStatusPatch) (seen : Option Run) (u : Run)
      (db db' : Db)
      → transition_authorized run status version patch seen db ≡ ok (some u, db')
      → Changed run patch u db'
  unfolding transition_authorized
  transition-Changed status version patch none u db db' e = absurd (cc e)
  transition-Changed status version patch (some seen) u db db' e =
      swap-Changed run status version patch seen db u db' e

  act-Settled :
      (user : ℕ) (current : Run) (db : Db) (o : Option Transition)
      → ((t : Transition)
          → o ≡ some t
          → (t.enqueue ≡ true → t.patch.status ≡ RunStatus.pending)
            × (t.patch.status ≢ RunStatus.running))
      → Settled run (act q user run i current o db)
  unfolding act transition_run
  act-Settled user current db none good = refuse-Settled run 409 "INVALID_RUN_TRANSITION" db
  act-Settled user current db (some t) good =
      elim (Bool-cases (t.enqueue && not q.execution_enabled)) [
        | inl disabled ↦ rw disabled (refuse-Settled run 503 "RUN_EXECUTION_DISABLED" db)
        | inr enabled ↦
            let (waits, stopped) = good t refl in
            rw enabled (
              after_transition-Settled t (q.others db) _ waits stopped (λ u db' e.
                transition-Changed current.status current.control_version t.patch _ u (q.others db)
                  db' e))
      ]

  control_found-Settled :
      (user : ℕ) (db : Db) (o : Option Run) → Settled run (control_found q user run i db o)
  unfolding control_found
  control_found-Settled user db none = refuse-Settled run 404 "RUN_NOT_FOUND" db
  control_found-Settled user db (some current) =
      elim (Bool-cases (client_preconditions i current)) [
        | inl met ↦ rw met (
            act-Settled user current db (resolve_run_transition i.action current.status q.now)
              (λ t e. (
                (resolve_open i.action current.status q.now t e).1.0,
                resolve_not_running i.action current.status q.now t e,
              )))
        | inr stale ↦ rw stale (refuse-Settled run 409 "RUN_CONCURRENCY_CONFLICT" db)
      ]

  pub control_run-Settled : (user : ℕ) (db : Db) → Settled run (control_run q user run i db)
  unfolding control_run
  control_run-Settled user db = control_found-Settled user db (authorized_run user run db)

-- ===== src/Control/Runs/Steps.antt =====
-- The control plane's operations on a run, and the laws of the store.
use atoms_platform.Common.{
  ℕ, ◌≡◌, refl, ap, false, inl, inr, Option, none, some, not, ◌&&◌, arith, Bool-cases, if_both,
}
use atoms_platform.Store.{
  RunStatus, Run, ErrorJson, Db, Outcome, ok, thrown, after, at_version-eq, is_final, Forward,
  new_version, Lawful, Lawful-refl, Lawful-trans, Leads, IsLawful, pure-IsLawful, if-IsLawful,
  bind-IsLawful, update_run_if-IsLawful,
}
use atoms_platform.Worker.Runs.{RunJob}
use atoms_platform.Worker.Runs.Steps.{update_at-IsLawful, find_run_or_throw-IsLawful}
use atoms_platform.Control.Transition.{RunStatusPatch, Transition, resolve_run_transition}
use atoms_platform.Control.Transition.Offered.{resolve_open}
use atoms_platform.Control.Runs.{
  apply_patch, authorized_run, transition_authorized, transition_run, not_queued, mark_run_failed,
  ActionInput, client_preconditions, job_of, Handled, Request, enqueue_run, after_transition, act,
  control_found, control_run,
}

not_queued-Forward :
    (error : ErrorJson) (now : ℕ) (r : Run)
    → r.status ≡ RunStatus.pending
    → Forward r (not_queued error now r)
not_queued-Forward error now r e = record {
  same_workspace = refl;
  same_project = refl;
  version_grows = omega arith;
  sequence_grows = omega arith;
  final = λ f. cc (ap is_final e);
  fenced = λ same. inr (e, refl);
}

pub mark_run_failed-IsLawful :
    (run version : ℕ) (error : ErrorJson) (now : ℕ)
    → IsLawful (mark_run_failed run version error now)
unfolding mark_run_failed
mark_run_failed-IsLawful run version error now =
    update_run_if-IsLawful run _ (not_queued error now)
      (λ r g. not_queued-Forward error now r (at_version-eq RunStatus.pending version r g).0)
      (λ r. refl)

transition_authorized-IsLawful :
    (run : ℕ) (status : RunStatus) (version : ℕ) (patch : RunStatusPatch) (seen : Option Run)
    → is_final status ≡ false
    → IsLawful (transition_authorized run status version patch seen)
unfolding transition_authorized
transition_authorized-IsLawful run status version patch none alive = pure-IsLawful none
transition_authorized-IsLawful run status version patch (some seen) alive =
    bind-IsLawful _ _
      (update_at-IsLawful run status version (apply_patch patch) alive
        (λ r open'. new_version r _ open' refl refl refl refl) (λ r. refl))
      λ updated.
        if-IsLawful updated
          (bind-IsLawful _ _ (find_run_or_throw-IsLawful run) λ r. pure-IsLawful (some r))
          (pure-IsLawful none)

pub transition_run-IsLawful :
    (user run : ℕ) (status : RunStatus) (version : ℕ) (patch : RunStatusPatch)
    → is_final status ≡ false
    → IsLawful (transition_run user run status version patch)
unfolding transition_run
transition_run-IsLawful user run status version patch alive = record {
  runs = λ db.
      (transition_authorized-IsLawful run status version patch (authorized_run user run db)
          alive).runs
        db;
}

abbrev KeepsFrom : Db → Handled → Type 0
KeepsFrom db h = Lawful db h.stored

pub after-Lawful :
    {A : Type 0} (db : Db) (o : Outcome (A × Db)) → Leads db o → Lawful db (after db o)
after-Lawful db (ok (a, b)) h = h
after-Lawful db (thrown e) h = Lawful-refl db

enqueue_run-Lawful :
    (q : Request) (job : RunJob) (updated : Run) (db : Db)
    → KeepsFrom db (enqueue_run q job updated db)
unfolding enqueue_run
enqueue_run-Lawful q job updated db =
    if_both (KeepsFrom db) (q.queue_accepts job)
      {x = record { result = _; queued = some job; stored = db }} (Lawful-refl db)
      (after-Lawful db _
        ((mark_run_failed-IsLawful job.run_id job.control_version q.queue_error q.now).runs db))

after_transition-Lawful :
    (q : Request) (run : ℕ) (i : ActionInput) (t : Transition) (db : Db)
    (o : Outcome (Option Run × Db))
    → Leads db o
    → KeepsFrom db (after_transition q run i t db o)
unfolding after_transition
after_transition-Lawful q run i t db (ok (some updated, db')) h = elim (Bool-cases t.enqueue) [
  | inl queue ↦ rw queue (Lawful-trans h (enqueue_run-Lawful q (job_of run i updated) updated db'))
  | inr quiet ↦ rw quiet h
]
after_transition-Lawful q run i t db (ok (none, db')) h = h
after_transition-Lawful q run i t db (thrown e) h = Lawful-refl db

module _ (q : Request) (user run : ℕ) (i : ActionInput) (db : Db)
    (others : (d : Db) → Lawful d (q.others d)) where
  act-some-Lawful :
      (current : Run) (t : Transition)
      → is_final current.status ≡ false
      → KeepsFrom db (act q user run i current (some t) db)
  unfolding act
  act-some-Lawful current t alive = elim (Bool-cases (t.enqueue && not q.execution_enabled)) [
    | inl disabled ↦ rw disabled (Lawful-refl db)
    | inr enabled ↦ rw enabled (
        Lawful-trans (others db) (
          after_transition-Lawful q run i t (q.others db) _ (
            (transition_run-IsLawful user run current.status current.control_version t.patch
                alive).runs
              (q.others db))))
  ]

  act-Lawful :
      (current : Run) (o : Option Transition)
      → ((t : Transition) → o ≡ some t → is_final current.status ≡ false)
      → KeepsFrom db (act q user run i current o db)
  unfolding act
  act-Lawful current none alive = Lawful-refl db
  act-Lawful current (some t) alive = act-some-Lawful current t (alive t refl)

  control_found-Lawful : (o : Option Run) → KeepsFrom db (control_found q user run i db o)
  unfolding control_found
  control_found-Lawful none = Lawful-refl db
  control_found-Lawful (some current) = elim (Bool-cases (client_preconditions i current)) [
    | inl met ↦ rw met (
        act-Lawful current (resolve_run_transition i.action current.status q.now)
          (λ t e. (resolve_open i.action current.status q.now t e).0))
    | inr stale ↦ rw stale (Lawful-refl db)
  ]

  -- Whatever the request, the answer and the other connections, an action keeps the laws.
  pub control_run-Lawful : Lawful db (control_run q user run i db).stored
  unfolding control_run
  control_run-Lawful = control_found-Lawful (authorized_run user run db)

-- ===== src/System/Safety.antt =====
-- Histories and the laws of the store.

use atoms_platform.Common.{
  ℕ, ◌≤◌, ◌≡◌, ◌≢◌, ap, ◌∙◌, sym, subst, true, false, inl, inr, some, arith, Bool-cases,
  Option-cases,
}
use atoms_platform.Common.Table.{lookup}
use atoms_platform.Store.{
  RunStatus, Run, Db, Outcome, append_row-IsLawful, ok, thrown, after, Leads, matches, at_version,
  at_version-eq, is_final, IsGapless, IsContiguous, Forward, Later, Lawful, Lawful-refl,
  Lawful-trans,
}
use atoms_platform.Worker.Runs.Steps.{claim_run-IsLawful}
use atoms_platform.Worker.Sandboxes.Steps.{mark_sandbox_failed-IsLawful}
use atoms_platform.Worker.Previews.Steps.{
  create_preview_reopen_session-IsLawful, record_preview_reopened-IsLawful,
  record_preview_reopen_failed-IsLawful, mark_preview_stopped-IsLawful,
}
use atoms_platform.Worker.Completion.{Parsers}
use atoms_platform.Worker.Calls.{WorkerCall, call_run, call_version, perform}
use atoms_platform.Worker.Calls.Fencing.{perform-IsLawful, holds, perform_fenced}
use atoms_platform.Control.Runs.{ActionInput, Request, run_reply, control_run}
use atoms_platform.Control.Runs.Steps.{control_run-Lawful, mark_run_failed-IsLawful}
use atoms_platform.Control.Runs.Handover.{control_run-Settled}
use atoms_platform.Control.Start.Queued.{start_run-Lawful}
use atoms_platform.Control.Files.Edits.{put_project_file-IsLawful}
use atoms_platform.Expiry.Steps.{
  expiry_sweep_once-Lawful, reminder_sweep_once-Lawful, purge_sweep_once-Lawful,
}
use atoms_platform.System.{
  History, start, also, work, claims, acts, creates, unqueued, edits, expires, reminds, purges,
  breaks, reopens, reopened, not_reopened, stops, publishes, elsewhere,
}

after-Lawful : {A : Type 0} (db : Db) (o : Outcome (A × Db)) → Leads db o → Lawful db (after db o)
after-Lawful db (ok (a, b)) h = h
after-Lawful db (thrown e) h = Lawful-refl db

elsewhere-Lawful :
    (a b : Db) → b.runs ≡ a.runs → b.events ≡ a.events → b.files ≡ a.files → Lawful a b
elsewhere-Lawful a b runs events files =
    let same = Lawful-refl a in
    record {
      later = λ k. rw runs (same.later k);
      gapless = λ h k. rw (runs, events) (h k);
      contiguous = λ h. rw files h;
    }

pub History-Lawful : {a b : Db} → History a b → Lawful a b
History-Lawful (start db) = Lawful-refl db
History-Lawful (also h k) = Lawful-trans (History-Lawful h) (History-Lawful k)
History-Lawful (work env call db) = after-Lawful db _ ((perform-IsLawful env call).runs db)
History-Lawful (claims others keeps job now db) =
    after-Lawful db _ ((claim_run-IsLawful others (λ d. History-Lawful (keeps d)) job now).runs db)
History-Lawful (acts q keeps user run i db) =
    control_run-Lawful q user run i db (λ d. History-Lawful (keeps d))
History-Lawful (creates q keeps new_id i db) =
    start_run-Lawful q new_id i db (λ d. History-Lawful (keeps d))
History-Lawful (unqueued run version error now db) =
    after-Lawful db _ ((mark_run_failed-IsLawful run version error now).runs db)
History-Lawful (edits user project i db) =
    after-Lawful db _ ((put_project_file-IsLawful user project i).runs db)
History-Lawful (expires others keeps ttl now batch db) =
    expiry_sweep_once-Lawful others (λ d. History-Lawful (keeps d)) ttl now batch db
History-Lawful (reminds others keeps wait now batch db) =
    reminder_sweep_once-Lawful others (λ d. History-Lawful (keeps d)) wait now batch db
History-Lawful (purges others keeps wait now batch db) =
    purge_sweep_once-Lawful others (λ d. History-Lawful (keeps d)) wait now batch db
History-Lawful (breaks session error now db) =
    after-Lawful db _ ((mark_sandbox_failed-IsLawful session error now).runs db)
History-Lawful (reopens new_id i db) =
    after-Lawful db _ ((create_preview_reopen_session-IsLawful new_id i).runs db)
History-Lawful (reopened d db) = after-Lawful db _ ((record_preview_reopened-IsLawful d).runs db)
History-Lawful (not_reopened run session error now db) =
    after-Lawful db _ ((record_preview_reopen_failed-IsLawful run session error now).runs db)
History-Lawful (stops session now db) =
    after-Lawful db _ ((mark_preview_stopped-IsLawful session now).runs db)
History-Lawful (publishes run payload db) =
    after-Lawful db _ ((append_row-IsLawful run payload).runs db)
History-Lawful (elsewhere a b runs events files) = elsewhere-Lawful a b runs events files

-- In every history that starts with gapless event logs and contiguous file versions, each run's
-- events stay numbered 1, 2, … up to its counter in order and with no gap, and so do the stored
-- versions of each project file.
pub history-IsGapless :
    (a b : Db)
    → IsGapless a
    → IsContiguous a.files
    → History a b
    → IsGapless b × IsContiguous b.files
history-IsGapless a b gapless contiguous h =
    let laws = History-Lawful h in (laws.gapless gapless, laws.contiguous contiguous)

pub later_row :
    (run : ℕ) (a b : Db) (r : Run)
    → Lawful a b
    → lookup run a.runs ≡ some r
    → (s : Run) × (lookup run b.runs ≡ some s) × Forward r s
later_row run a b r laws found =
    let step = subst (λ o. Later o (lookup run b.runs)) found (laws.later run) in
    elim (Option-cases (lookup run b.runs)) [
      | inl gone ↦ absurd (subst (λ o. Later (some r) o) gone step)
      | inr (s, there) ↦ (s, there, subst (λ o. Later (some r) o) there step)
    ]

-- In every history a run that is COMPLETED or CANCELLED is kept, with that status and its control
-- version.
pub history_final :
    (run : ℕ) (a b : Db) (r : Run)
    → lookup run a.runs ≡ some r
    → is_final r.status ≡ true
    → History a b
    → (s : Run) × (lookup run b.runs ≡ some s)
      × (s.status ≡ r.status)
      × (s.control_version ≡ r.control_version)
history_final run a b r found final h =
    let (s, there, step) = later_row run a b r (History-Lawful h) found in
    let (status, version) = step.final final in (s, there, status, version)

Forward-fences :
    (version : ℕ) (r s : Run)
    → version ≤ r.control_version
    → r.status ≢ RunStatus.running
    → Forward r s
    → at_version RunStatus.running version s ≡ true
    → ⊥
Forward-fences version r s le stopped step hit =
    let (status, at) = at_version-eq RunStatus.running version s hit in
    let same : s.control_version ≡ r.control_version = omega (arith, step.version_grows) in
    elim (step.fenced same) [
      | inl kept ↦ stopped (sym kept ∙ status)
      | inr (waits, failed) ↦ absurd (cc (sym failed ∙ status))
    ]

never_holds :
    (run version : ℕ) (a b : Db) (r : Run)
    → lookup run a.runs ≡ some r
    → version ≤ r.control_version
    → r.status ≢ RunStatus.running
    → Lawful a b
    → holds run version b ≡ false
never_holds run version a b r found le stopped laws =
    let (s, there, step) = later_row run a b r laws found in
    elim (Bool-cases (holds run version b)) [
      | inl held ↦ absurd (
          Forward-fences version r s le stopped step
            (subst (λ o. matches (at_version RunStatus.running version) o ≡ true) there held))
      | inr free ↦ free
    ]

held_row :
    (run version : ℕ) (db : Db)
    → holds run version db ≡ true
    → (r : Run) × (lookup run db.runs ≡ some r) × (r.control_version ≡ version)
held_row run version db held = elim (Option-cases (lookup run db.runs)) [
  | inl gone ↦ absurd (cc (sym held ∙ ap (matches (at_version RunStatus.running version)) gone))
  | inr (r, found) ↦ (
    r,
    found,
    (at_version-eq RunStatus.running version r
        (subst (λ o. matches (at_version RunStatus.running version) o ≡ true) found held)).1,
  )
]

-- A worker holds a run, and an action of a user on the run is accepted, while other connections only
-- commit histories. After any further history, every call of that worker on the run, at the version
-- that it held, is told to stop and writes nothing.
pub action_stops_worker :
    (q : Request) (user run : ℕ) (i : ActionInput) (a b : Db) (version code : ℕ) (r : Run)
    → ((db : Db) → History db (q.others db))
    → holds run version a ≡ true
    → (control_run q user run i a).result ≡ run_reply code r
    → History (control_run q user run i a).stored b
    → (env : Parsers) (call : WorkerCall) → call_run call ≡ run
    → call_version call ≡ version
    → perform env call b ≡ ok (false, b)
action_stops_worker q user run i a b version code r keeps held replied later env call named at =
    let (old, was, old_version) = held_row run version a held in
    let (found, stopped) = (control_run-Settled q run i user a).replied code r replied in
    let (new, there, step) =
      later_row run a _ old (History-Lawful (acts q keeps user run i a)) was in
    let same : some new ≡ some r = sym there ∙ found in
    let row : new ≡ r = cc in
    let le : version ≤ r.control_version = rw (← row, ← old_version) step.version_grows in
    perform_fenced env call b
      (rw (named, at) (never_holds run version _ b r found le stopped (History-Lawful later)))

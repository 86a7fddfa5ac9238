-- ===== src/Worker/Runs/Ends.antt =====
-- completeRun and failRun: the row that a run has ended with.
use atoms_platform.Common.{
  ℕ, suc, ◌≡◌, refl, sym, subst, ◌∙◌, Bool, true, false, some, inl, inr, Bool-cases, Option-cases,
  if◌then◌else◌, ==_iff, ap,
}
use atoms_platform.Common.Table.{Table, lookup, modify, lookup-modify}
use atoms_platform.Store.{
  RunStatus, Run, Payload, ErrorJson, Db, Outcome, Tx, ok, thrown, pure, ◌>>◌, at_version,
  at_version-eq, matches, update_run_if, update_run_if_hit, update_run_if_miss, append_event,
  append_event-cases, bump_sequence, bind_eq, bind_thrown, update_at,
}
use atoms_platform.Store
use atoms_platform.Worker.Runs.{RunExecutionRecord, complete_at, fail_at, complete_run, fail_run}

-- The run has the status, one control version after the one that was held.
abbrev pub HasEnded : RunExecutionRecord → RunStatus → Db → Type 0
HasEnded run status db =
    (r : Run) × (lookup run.id db.runs ≡ some r)
    × (r.status ≡ status)
    × (r.control_version ≡ suc run.control_version)

-- A transaction that answers true ended the run.
abbrev pub Yields : RunExecutionRecord → RunStatus → Outcome (Bool × Db) → Type 0
Yields run status (ok (true, db)) = HasEnded run status db
Yields run status o = Unit

row-modify :
    (id : ℕ) (f : Run → Run) (t : Table Run) (r : Run)
    → lookup id t ≡ some r
    → lookup id (modify id f t) ≡ some (f r)
row-modify id f t r found = lookup-modify id id f t ∙ rw ((==_iff id id).1 refl, found) refl

module _ (run : RunExecutionRecord) (status : RunStatus) (change : Run → Run) (payload : Payload)
    (to : (r : Run) → (change r).status ≡ status)
    (next : (r : Run) → (change r).control_version ≡ suc r.control_version) (db : Db) where
  abbrev changed : Db
  changed = record db { runs = modify run.id change db.runs }

  ended_row :
      (r : Run)
      → lookup run.id db.runs ≡ some r
      → lookup run.id (modify run.id bump_sequence changed.runs) ≡ some (bump_sequence (change r))
  ended_row r found =
      row-modify run.id bump_sequence changed.runs (change r)
        (row-modify run.id change db.runs r found)

  logged-Yields :
      (r : Run)
      → lookup run.id db.runs ≡ some r
      → r.control_version ≡ run.control_version
      → Yields run status ((append_event run.id payload >> pure true) changed)
  logged-Yields r found at = elim (append_event-cases run.id payload changed) [
    | inl (e, refused) ↦
        subst (Yields run status)
          (sym (bind_thrown (append_event run.id payload) (λ _. pure true) changed refused)) tt
    | inr (valid, r', stored) ↦
        subst (Yields run status)
          (sym (bind_eq (append_event run.id payload) (λ _. pure true) changed stored))
          (bump_sequence (change r), ended_row r found, to r, next r ∙ ap suc at)
  ]

  abbrev log_end : Bool → Tx Bool
  log_end updated = if updated then append_event run.id payload >> pure true else pure false

  end_run-Yields :
      Yields run status
        (Store.◌>>=◌ (update_at run.id RunStatus.running run.control_version change) log_end db)
  end_run-Yields =
      elim (Bool-cases
        (matches (at_version RunStatus.running run.control_version) (lookup run.id db.runs))) [
          | inr free ↦
              subst (Yields run status)
                (sym (
                  bind_eq (update_at run.id RunStatus.running run.control_version change) log_end db
                    (update_run_if_miss run.id _ change db free)))
                tt
          | inl held ↦
              subst (Yields run status)
                (sym (
                  bind_eq (update_at run.id RunStatus.running run.control_version change) log_end db
                    (update_run_if_hit run.id _ change db held)))
                (elim (Option-cases (lookup run.id db.runs)) [
                  | inl gone ↦ absurd (
                      cc (
                        sym held
                        ∙ ap (matches (at_version RunStatus.running run.control_version)) gone))
                  | inr (r, found) ↦ logged-Yields r found (
                      (at_version-eq RunStatus.running run.control_version r (
                        subst
                          (λ o. matches (at_version RunStatus.running run.control_version) o ≡ true)
                          found held)).1)
                ])
        ]

pub complete_run-Yields :
    (run : RunExecutionRecord) (now : ℕ) (db : Db)
    → Yields run RunStatus.completed (complete_run run.id run.control_version now db)
unfolding complete_run
complete_run-Yields run now db =
    end_run-Yields run RunStatus.completed (complete_at now) (Payload.run_completed now) (λ r. refl)
      (λ r. refl) db

pub fail_run-Yields :
    (run : RunExecutionRecord) (error : ErrorJson) (now : ℕ) (db : Db)
    → Yields run RunStatus.failed (fail_run run.id run.control_version error now db)
unfolding fail_run
fail_run-Yields run error now db =
    end_run-Yields run RunStatus.failed (fail_at error now) (Payload.run_failed error) (λ r. refl)
      (λ r. refl) db

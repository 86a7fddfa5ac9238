-- ===== src/Worker/Previews/Reopening.antt =====
-- createPreviewReopenSession: the attempt number of the new sandbox session.
use atoms_platform.Common.{
  ℕ, ◌+◌, ◌≤◌, ◌<◌, ◌≡◌, refl, max, Bool, true, false, Option, none, some, [], ◌∷◌, arith, inl, inr,
  Bool-cases, All,
}
use atoms_platform.Common.Table.{Table, lookup}
use atoms_platform.Store.{
  SandboxSession, Db, Outcome, ok, pure, bind_eq, last_attempt, session_of_attempt, external_taken,
  insert_session,
}
use atoms_platform.Worker.Previews.{
  CreatePreviewReopenSessionInput, preview_reopen_first_attempt, is_reopenable, reopened_session,
  last_attempt_of, reopen_found, create_preview_reopen_session,
}

-- The attempts of a run are all below a number.
abbrev pub AttemptsBelow : (run bound : ℕ) → Table SandboxSession → Type 0
AttemptsBelow run bound rows = All (λ row. row.1.run_id ≡ run → row.1.attempt < bound) rows

AttemptsBelow-last :
    (run bound : ℕ) (rows : Table SandboxSession)
    → last_attempt run rows < bound
    → AttemptsBelow run bound rows
unfolding last_attempt
AttemptsBelow-last run bound [] h = tt
AttemptsBelow-last run bound ((id, s) ∷ rows) h =
    (λ e. ground (arith, h, e), AttemptsBelow-last run bound rows (ground (arith, h)))

session_of_attempt-unused :
    (run bound : ℕ) (rows : Table SandboxSession)
    → last_attempt run rows < bound
    → session_of_attempt run bound rows ≡ none
unfolding last_attempt session_of_attempt
session_of_attempt-unused run bound [] h = refl
session_of_attempt-unused run bound ((id, s) ∷ rows) h =
    ground (arith, h, session_of_attempt-unused run bound rows)

last_attempt_lt :
    (run : ℕ) (rows : Table SandboxSession)
    → last_attempt run rows < max 1000 (last_attempt run rows) + 1
last_attempt_lt run rows = omega arith

insert_free :
    (id : ℕ) (s : SandboxSession) (db : Db)
    → lookup id db.sandbox_sessions ≡ none
    → session_of_attempt s.run_id s.attempt db.sandbox_sessions ≡ none
    → external_taken none s.external_id db.sandbox_sessions ≡ false
    → insert_session id s db
      ≡ ok (id, record db { sandbox_sessions = (id, s) ∷ db.sandbox_sessions })
unfolding insert_session
insert_free id s db fresh unused free = rw (fresh, unused, free) refl

-- A new session for a run that can be reopened, with an attempt that none of the run's sessions has.
abbrev pub Opens :
    (new_id : ℕ) → CreatePreviewReopenSessionInput → Db → Outcome (Option ℕ × Db) → Type 0
Opens new_id i db o =
    (attempt : ℕ) × (preview_reopen_first_attempt ≤ attempt)
    × AttemptsBelow i.run_id attempt db.sandbox_sessions
    × (o
        ≡ ok (
          some new_id,
          record db {
            sandbox_sessions =
                (new_id, record (reopened_session i 0) { attempt = attempt }) ∷ db.sandbox_sessions;
          },
        ))

abbrev pub Reopens :
    (new_id : ℕ) → CreatePreviewReopenSessionInput → Db → Bool → Outcome (Option ℕ × Db) → Type 0
Reopens new_id i db true o = Opens new_id i db o
Reopens new_id i db false o = o ≡ ok (none, db)

module _ (new_id : ℕ) (i : CreatePreviewReopenSessionInput) (db : Db) where
  reopen_found-Opens :
      lookup new_id db.sandbox_sessions ≡ none
      → external_taken none i.external_id db.sandbox_sessions ≡ false
      → Opens new_id i db (reopen_found new_id i db)
  unfolding reopen_found last_attempt_of
  reopen_found-Opens fresh free =
      let last = last_attempt i.run_id db.sandbox_sessions in
      let below = last_attempt_lt i.run_id db.sandbox_sessions in
      (
        max 1000 last + 1,
        omega arith,
        AttemptsBelow-last i.run_id _ db.sandbox_sessions below,
        bind_eq (insert_session new_id (reopened_session i last)) (λ id. pure (some id)) db
            (insert_free new_id (reopened_session i last) db fresh
              (session_of_attempt-unused i.run_id _ db.sandbox_sessions below) free),
      )

  -- Where the new id and the external id are unused: for a COMPLETED run of the named project and
  -- workspace the session is stored, with an attempt number that is at least 1001 and above
  -- that of every session of the run, so that no unique index is violated; for any other run the
  -- answer is null and nothing is stored.
  pub create_preview_reopen_session-Reopens :
      lookup new_id db.sandbox_sessions ≡ none
      → external_taken none i.external_id db.sandbox_sessions ≡ false
      → Reopens new_id i db
          (is_reopenable i (lookup i.run_id db.runs))
          (create_preview_reopen_session new_id i db)
  unfolding create_preview_reopen_session
  create_preview_reopen_session-Reopens fresh free =
      elim (Bool-cases (is_reopenable i (lookup i.run_id db.runs))) [
        | inl done ↦ rw done (reopen_found-Opens fresh free)
        | inr other ↦ rw other refl
      ]

-- ===== src/Worker/Sandboxes/Recording.antt =====
-- recordSandboxCommand: the rows and the event that a reported step leaves.
use atoms_platform.Common.{
  ◌&&◌, none, length-take-le, take, leb, ltb, ◌++◌, ◌+◌, ℕ, suc, ◌≤◌, ◌≡◌, refl, sym, ap, ◌∙◌,
  subst, Bool, true, false, some, List, [], ◌∷◌, if◌then◌else◌, arith, inl, inr, Bool-cases,
  Option-cases, keep, length,
}
use atoms_platform.Common.Table.{lookup, modify, lookup-modify}
use atoms_platform.Store.{
  Text, bind_thrown, fault, append_event_refused, RunStatus, Run, SandboxCommand, Db, Outcome, ok,
  thrown, pure, ◌>>◌, at_version, matches, touch, touch_active_run, touch_miss, update_run_if_hit,
  bump_sequence, append_event, append_event_found, validate_run_event_payload, valid_when,
  is_output, Formats, Payload, row_matches, is_command_of, put_command, upsert_command, bind_eq,
}
use atoms_platform.Worker.Sandboxes.{
  truncate_diagnostic, maximum_length, truncation_mark, RecordSandboxCommandInput, command_row,
  progress_of, of_run, session_belongs, record_active, record_sandbox_command,
}

-- The rows of one ordinal of a session.
abbrev pub commands_at : (session ordinal : ℕ) → List SandboxCommand → List SandboxCommand
commands_at session ordinal cs = keep (is_command_of session ordinal) cs

empty_of : {A : Type 0} (xs : List A) → suc (length xs) ≤ 1 → xs ≡ []
empty_of [] h = refl
empty_of (x ∷ xs) h = absurd (omega (arith, h))

abbrev AtMost : SandboxCommand → SandboxCommand → List SandboxCommand → Bool → Type 0
AtMost c d ds b =
    let rest = commands_at c.sandbox_session_id c.ordinal ds in
    length (if b then d ∷ rest else rest) ≤ 1

commands_at-put :
    (c : SandboxCommand) (cs : List SandboxCommand)
    → length (commands_at c.sandbox_session_id c.ordinal cs) ≤ 1
    → commands_at c.sandbox_session_id c.ordinal (put_command c cs) ≡ c ∷ []
unfolding put_command
commands_at-put c [] h = ground arith
commands_at-put c (d ∷ ds) h = elim (Bool-cases (is_command_of c.sandbox_session_id c.ordinal d)) [
  | inl hit ↦
      let rest =
        empty_of (commands_at c.sandbox_session_id c.ordinal ds) (subst (AtMost c d ds) hit h) in
      rw hit (ground (arith, rest))
  | inr miss ↦ rw miss (rw miss (commands_at-put c ds (subst (AtMost c d ds) miss h)))
]

commands_at-put_other :
    (session ordinal : ℕ) (c : SandboxCommand) (cs : List SandboxCommand)
    → is_command_of session ordinal c ≡ false
    → commands_at session ordinal (put_command c cs) ≡ commands_at session ordinal cs
unfolding put_command
commands_at-put_other session ordinal c [] h = ground (arith, h)
commands_at-put_other session ordinal c (d ∷ ds) h =
    ground (arith, h, commands_at-put_other session ordinal c ds)

pub record Recorded (i : RecordSandboxCommandInput) (a b : Db) : Type 0 where
  pub held :
      (r : Run) × (lookup i.run_id a.runs ≡ some r)
      × (at_version RunStatus.running i.expected_control_version r ≡ true)
      × (b.events
          ≡ record { run_id = i.run_id; sequence = suc r.event_sequence; payload = progress_of i }
            ∷ a.events)
  pub belongs :
      row_matches (of_run i.run_id) (lookup i.sandbox_session_id a.sandbox_sessions) ≡ true
  pub one_row :
      commands_at i.sandbox_session_id i.step.ordinal b.sandbox_commands ≡ command_row i ∷ []
  pub other_rows :
      (session ordinal : ℕ)
      → is_command_of session ordinal (command_row i) ≡ false
      → commands_at session ordinal b.sandbox_commands
        ≡ commands_at session ordinal a.sandbox_commands

abbrev pub Records : RecordSandboxCommandInput → Db → Outcome (Bool × Db) → Type 0
Records i a (ok (true, b)) = Recorded i a b
Records i a (ok (false, b)) = (b.events ≡ a.events) × (b.sandbox_commands ≡ a.sandbox_commands)
Records i a (thrown e) = i.step.ordinal ≡ 0

length-append : (xs ys : Text) → length (xs ++ ys) ≡ length xs + length ys
length-append [] ys = omega arith
length-append (x ∷ xs) ys = omega (arith, length-append xs ys)

output_within : (t : Text) → length t ≤ 64012 → is_output t ≡ true
output_within t h = ground (arith, h)

cut_within : (t : Text) → length (take maximum_length t ++ truncation_mark) ≤ 64012
cut_within t =
    omega (
      arith,
      length-append (take maximum_length t) truncation_mark,
      length-take-le maximum_length t,
    )

-- A truncated output is as long as the schema of its event allows.
truncate_diagnostic_lem : (t : Text) → is_output (truncate_diagnostic t) ≡ true
unfolding truncate_diagnostic
truncate_diagnostic_lem t = elim (Bool-cases (leb (length t) maximum_length)) [
  | inl short ↦ let le : length t ≤ 64012 = ground (arith, short) in rw short (output_within t le)
  | inr long ↦ rw long (output_within _ (cut_within t))
]

alone : (b : Bool) (p : Payload) → valid_when (b && true && true) p ≡ valid_when b p
alone true p = refl
alone false p = refl

progress_valid :
    (f : Formats) (i : RecordSandboxCommandInput)
    → validate_run_event_payload f (progress_of i)
      ≡ valid_when (ltb 0 i.step.ordinal) (progress_of i)
unfolding validate_run_event_payload
progress_valid f i =
    rw (truncate_diagnostic_lem i.step.stdout, truncate_diagnostic_lem i.step.stderr)
      (alone (ltb 0 i.step.ordinal) (progress_of i))

unnumbered : (n : ℕ) → ltb 0 n ≡ false → n ≡ 0
unnumbered n h = ground (arith, h)

module _ (i : RecordSandboxCommandInput) (db : Db) where
  abbrev touched : Db
  touched = record db { runs = modify i.run_id (touch i.now) db.runs }

  touched_row :
      (r : Run)
      → lookup i.run_id db.runs ≡ some r
      → lookup i.run_id touched.runs ≡ some (touch i.now r)
  touched_row r found =
      rw (lookup-modify i.run_id i.run_id (touch i.now) db.runs, found) (ground arith)

  abbrev with_row : Db
  with_row = record touched { sandbox_commands = put_command (command_row i) db.sandbox_commands }

  logged :
      (r : Run)
      → lookup i.run_id db.runs ≡ some r
      → validate_run_event_payload db.formats (progress_of i) ≡ some (progress_of i)
      → (upsert_command (command_row i) >> append_event i.run_id (progress_of i) >> pure true)
          touched
        ≡ ok (
          true,
          record with_row {
            runs = modify i.run_id bump_sequence touched.runs;
            events =
                record {
                  run_id = i.run_id;
                  sequence = suc r.event_sequence;
                  payload = progress_of i;
                }
                ∷ db.events;
          },
        )
  unfolding upsert_command
  logged r found checked =
      bind_eq (upsert_command (command_row i) >> append_event i.run_id (progress_of i))
        (λ _. pure true) touched
        (bind_eq (upsert_command (command_row i)) (λ _. append_event i.run_id (progress_of i))
            touched refl
          ∙ append_event_found i.run_id (progress_of i) _ with_row (touch i.now r) checked
              (touched_row r found))

  unlogged :
      validate_run_event_payload db.formats (progress_of i) ≡ none
      → (upsert_command (command_row i) >> append_event i.run_id (progress_of i) >> pure true)
          touched
        ≡ thrown (fault "ZodError")
  unfolding upsert_command
  unlogged refused =
      bind_thrown (upsert_command (command_row i) >> append_event i.run_id (progress_of i))
        (λ _. pure true) touched
        (bind_eq (upsert_command (command_row i)) (λ _. append_event i.run_id (progress_of i))
            touched refl
          ∙ append_event_refused i.run_id (progress_of i) with_row refused)

  record_active-Records :
      (r : Run)
      → lookup i.run_id db.runs ≡ some r
      → at_version RunStatus.running i.expected_control_version r ≡ true
      → length (commands_at i.sandbox_session_id i.step.ordinal db.sandbox_commands) ≤ 1
      → Records i db (record_active i touched)
  unfolding record_active session_belongs upsert_command
  record_active-Records r found at once =
      elim (Bool-cases
        (row_matches (of_run i.run_id) (lookup i.sandbox_session_id db.sandbox_sessions))) [
          | inl belongs ↦ rw belongs (elim (Bool-cases (ltb 0 i.step.ordinal)) [
            | inl positive ↦
                subst (Records i db)
                  (sym (
                    logged r found (
                      progress_valid db.formats i
                      ∙ ap (λ b. valid_when b (progress_of i)) positive)))
                  (record {
                    held = (r, found, at, refl);
                    belongs = belongs;
                    one_row = commands_at-put (command_row i) db.sandbox_commands once;
                    other_rows = λ session ordinal other.
                        commands_at-put_other session ordinal (command_row i) db.sandbox_commands
                          other;
                  })
            | inr nought ↦
                subst (Records i db)
                  (sym (
                    unlogged (
                      progress_valid db.formats i ∙ ap (λ b. valid_when b (progress_of i)) nought)))
                  (unnumbered i.step.ordinal nought)
          ])
          | inr foreign ↦ rw foreign (refl, refl)
        ]

  -- Where each ordinal of the session has one row at most: an accepted report of a step leaves exactly the reported row for its ordinal, whatever was recorded for it before, changes no row of another
  -- ordinal or session, and adds one event; the run was RUNNING at the named version and the session is its own. A report that is not accepted adds neither row nor event, and only the ordinal 0 makes the report fail.
  pub record_sandbox_command-Records :
      length (commands_at i.sandbox_session_id i.step.ordinal db.sandbox_commands) ≤ 1
      → Records i db (record_sandbox_command i db)
  unfolding record_sandbox_command touch_active_run
  record_sandbox_command-Records once =
      elim (Bool-cases (
        matches (at_version RunStatus.running i.expected_control_version)
          (lookup i.run_id db.runs))) [
            | inl held ↦ elim (Option-cases (lookup i.run_id db.runs)) [
              | inl gone ↦ absurd (
                  cc (
                    sym held
                    ∙ ap (matches (at_version RunStatus.running i.expected_control_version)) gone))
              | inr (r, found) ↦
                  subst (Records i db)
                    (sym (
                      bind_eq (touch_active_run i.run_id i.expected_control_version i.now) _ db
                        (update_run_if_hit i.run_id _ _ db held)))
                    (record_active-Records r found
                      (subst
                        (λ o.
                          matches (at_version RunStatus.running i.expected_control_version) o
                          ≡ true)
                        found held)
                      once)
            ]
            | inr free ↦
                subst (Records i db)
                  (sym (
                    bind_eq (touch_active_run i.run_id i.expected_control_version i.now) _ db
                      (touch_miss i.run_id _ _ db free)))
                  (refl, refl)
          ]

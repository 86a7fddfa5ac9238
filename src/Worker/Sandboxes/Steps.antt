-- ===== src/Worker/Sandboxes/Steps.antt =====
-- The operations on sandbox sessions, and the laws of the store.
use atoms_platform.Common.{ℕ, true, false, Option, none, some}
use atoms_platform.Store.{
  Json, Lawful-refl, IsLawful, pure-IsLawful, throw-IsLawful, unique_violation, if-IsLawful,
  bind-IsLawful, touch_active_run-IsLawful, append_event-IsLawful, update_session_if-IsLawful,
  update_session-IsLawful, insert_session-IsLawful, upsert_command-IsLawful, external_taken,
}
use atoms_platform.Worker.Runs.Steps.{append_then-IsLawful}
use atoms_platform.Worker.Sandboxes.{
  CreateSandboxSessionInput, renew_existing, upsert_session, find_session_of,
  create_sandbox_session, restore_active, mark_sandbox_files_restored, RecordSandboxCommandInput,
  session_belongs, record_active, record_sandbox_command, mark_sandbox_failed,
}

renew_existing-IsLawful : (i : CreateSandboxSessionInput) (id : ℕ) → IsLawful (renew_existing i id)
unfolding renew_existing
renew_existing-IsLawful i id = record {
  runs = λ db.
      (if-IsLawful (external_taken (some id) i.external_id db.sandbox_sessions)
          (throw-IsLawful unique_violation)
          (bind-IsLawful _ _ (update_session-IsLawful id _) (λ _. pure-IsLawful _))).runs
        db;
}

upsert_session-IsLawful :
    (new_id : ℕ) (i : CreateSandboxSessionInput) (o : Option ℕ)
    → IsLawful (upsert_session new_id i o)
unfolding upsert_session
upsert_session-IsLawful new_id i none =
    bind-IsLawful _ _ (insert_session-IsLawful new_id _) λ id. pure-IsLawful _
upsert_session-IsLawful new_id i (some id) = renew_existing-IsLawful i id

find_session_of-IsLawful : (run attempt : ℕ) → IsLawful (find_session_of run attempt)
unfolding find_session_of
find_session_of-IsLawful run attempt = record { runs = λ db. Lawful-refl db }

pub create_sandbox_session-IsLawful :
    (new_id : ℕ) (i : CreateSandboxSessionInput) → IsLawful (create_sandbox_session new_id i)
unfolding create_sandbox_session
create_sandbox_session-IsLawful new_id i =
    bind-IsLawful _ _ (touch_active_run-IsLawful i.run.id i.run.control_version i.now) λ alive.
      if-IsLawful alive
        (bind-IsLawful _ _ (find_session_of-IsLawful i.run.id i.attempt)
          (upsert_session-IsLawful new_id i))
        (pure-IsLawful _)

restore_active-IsLawful : (run session : ℕ) → IsLawful (restore_active run session)
unfolding restore_active
restore_active-IsLawful run session =
    bind-IsLawful _ _ (update_session_if-IsLawful session _ _) λ updated.
      if-IsLawful updated (append_then-IsLawful run _ _ (pure-IsLawful true)) (pure-IsLawful false)

pub mark_sandbox_files_restored-IsLawful :
    (run version session now : ℕ) → IsLawful (mark_sandbox_files_restored run version session now)
unfolding mark_sandbox_files_restored
mark_sandbox_files_restored-IsLawful run version session now =
    bind-IsLawful _ _ (touch_active_run-IsLawful run version now)
      λ alive. if-IsLawful alive (restore_active-IsLawful run session) (pure-IsLawful false)

session_belongs-IsLawful : (session run : ℕ) → IsLawful (session_belongs session run)
unfolding session_belongs
session_belongs-IsLawful session run = record { runs = λ db. Lawful-refl db }

record_active-IsLawful : (i : RecordSandboxCommandInput) → IsLawful (record_active i)
unfolding record_active
record_active-IsLawful i =
    bind-IsLawful _ _ (session_belongs-IsLawful i.sandbox_session_id i.run_id) λ found.
      if-IsLawful found
        (bind-IsLawful _ _
          (bind-IsLawful _ _ (upsert_command-IsLawful _) (λ _. append_event-IsLawful i.run_id _))
          (λ _. pure-IsLawful true))
        (pure-IsLawful false)

pub record_sandbox_command-IsLawful :
    (i : RecordSandboxCommandInput) → IsLawful (record_sandbox_command i)
unfolding record_sandbox_command
record_sandbox_command-IsLawful i =
    bind-IsLawful _ _ (touch_active_run-IsLawful i.run_id i.expected_control_version i.now)
      λ alive. if-IsLawful alive (record_active-IsLawful i) (pure-IsLawful false)

pub mark_sandbox_failed-IsLawful :
    (session : ℕ) (error : Json) (now : ℕ) → IsLawful (mark_sandbox_failed session error now)
unfolding mark_sandbox_failed
mark_sandbox_failed-IsLawful session error now =
    bind-IsLawful _ _ (update_session_if-IsLawful session _ _) λ updated. pure-IsLawful tt

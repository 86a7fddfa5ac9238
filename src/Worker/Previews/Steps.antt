-- ===== src/Worker/Previews/Steps.antt =====
-- The operations on previews, and the laws of the store.
use atoms_platform.Common.{ℕ, true, false, Option, none, some}
use atoms_platform.Common.Table.{lookup}
use atoms_platform.Store.{
  Json, PreviewSession, SandboxSession, Lawful-refl, IsLawful, pure-IsLawful, if-IsLawful,
  bind-IsLawful, touch_active_run-IsLawful, append_event-IsLawful, update_session_if-IsLawful,
  update_session-IsLawful, insert_session-IsLawful, insert_preview-IsLawful,
  update_preview-IsLawful,
}
use atoms_platform.Worker.Runs.Steps.{find_run-IsLawful}
use atoms_platform.Worker.Previews.{
  PreviewData, RecordPreviewReadyInput, upsert_preview, find_preview_of, show_preview, ready_active,
  record_preview_ready, CreatePreviewReopenSessionInput, is_reopenable, last_attempt_of,
  reopen_found, create_preview_reopen_session, record_preview_reopened, fail_reopened,
  record_preview_reopen_failed, stop_preview, stop_session, mark_preview_stopped,
}

upsert_preview-IsLawful :
    (d : PreviewData) (o : Option (ℕ × PreviewSession)) → IsLawful (upsert_preview d o)
unfolding upsert_preview
upsert_preview-IsLawful d none = insert_preview-IsLawful d.sandbox_session_id _
upsert_preview-IsLawful d (some (id, p)) = update_preview-IsLawful id _

find_preview_of-IsLawful : (session : ℕ) → IsLawful (find_preview_of session)
unfolding find_preview_of
find_preview_of-IsLawful session = record { runs = λ db. Lawful-refl db }

show_preview-IsLawful : (d : PreviewData) → IsLawful (show_preview d)
unfolding show_preview
show_preview-IsLawful d =
    bind-IsLawful _ _
      (bind-IsLawful _ _
        (bind-IsLawful _ _ (find_preview_of-IsLawful d.sandbox_session_id)
          (upsert_preview-IsLawful d))
        (λ _. append_event-IsLawful d.run_id _))
      (λ _. pure-IsLawful true)

ready_active-IsLawful : (d : PreviewData) → IsLawful (ready_active d)
unfolding ready_active
ready_active-IsLawful d =
    bind-IsLawful _ _ (update_session_if-IsLawful d.sandbox_session_id _ _)
      λ updated. if-IsLawful updated (show_preview-IsLawful d) (pure-IsLawful false)

pub record_preview_ready-IsLawful :
    (i : RecordPreviewReadyInput) → IsLawful (record_preview_ready i)
unfolding record_preview_ready
record_preview_ready-IsLawful i =
    bind-IsLawful _ _ (touch_active_run-IsLawful i.run.id i.run.control_version i.now)
      λ alive. if-IsLawful alive (ready_active-IsLawful _) (pure-IsLawful false)

last_attempt_of-IsLawful : (run : ℕ) → IsLawful (last_attempt_of run)
unfolding last_attempt_of
last_attempt_of-IsLawful run = record { runs = λ db. Lawful-refl db }

reopen_found-IsLawful :
    (new_id : ℕ) (i : CreatePreviewReopenSessionInput) → IsLawful (reopen_found new_id i)
unfolding reopen_found
reopen_found-IsLawful new_id i =
    bind-IsLawful _ _ (last_attempt_of-IsLawful i.run_id)
      λ last. bind-IsLawful _ _ (insert_session-IsLawful new_id _) λ id. pure-IsLawful (some id)

pub create_preview_reopen_session-IsLawful :
    (new_id : ℕ) (i : CreatePreviewReopenSessionInput)
    → IsLawful (create_preview_reopen_session new_id i)
unfolding create_preview_reopen_session
create_preview_reopen_session-IsLawful new_id i =
    bind-IsLawful _ _ (find_run-IsLawful i.run_id)
      λ run. if-IsLawful (is_reopenable i run) (reopen_found-IsLawful new_id i) (pure-IsLawful none)

pub record_preview_reopened-IsLawful : (d : PreviewData) → IsLawful (record_preview_reopened d)
unfolding record_preview_reopened
record_preview_reopened-IsLawful d =
    bind-IsLawful _ _
      (bind-IsLawful _ _ (update_session-IsLawful d.sandbox_session_id _)
        (λ _. insert_preview-IsLawful d.sandbox_session_id _))
      (λ _. append_event-IsLawful d.run_id _)

fail_reopened-IsLawful :
    (session : Option ℕ) (error : Json) (now : ℕ) → IsLawful (fail_reopened session error now)
unfolding fail_reopened
fail_reopened-IsLawful none error now = pure-IsLawful tt
fail_reopened-IsLawful (some session) error now =
    bind-IsLawful _ _ (update_session_if-IsLawful session _ _) λ updated. pure-IsLawful tt

pub record_preview_reopen_failed-IsLawful :
    (run : ℕ) (session : Option ℕ) (error : Json) (now : ℕ)
    → IsLawful (record_preview_reopen_failed run session error now)
unfolding record_preview_reopen_failed
record_preview_reopen_failed-IsLawful run session error now =
    bind-IsLawful _ _ (fail_reopened-IsLawful session error now) (λ _. append_event-IsLawful run _)

stop_preview-IsLawful :
    (run now : ℕ) (o : Option (ℕ × PreviewSession)) → IsLawful (stop_preview run now o)
unfolding stop_preview
stop_preview-IsLawful run now none = pure-IsLawful tt
stop_preview-IsLawful run now (some (id, p)) =
    bind-IsLawful _ _ (update_preview-IsLawful id _) (λ _. append_event-IsLawful run _)

stop_session-IsLawful :
    (session now : ℕ) (o : Option SandboxSession) → IsLawful (stop_session session now o)
unfolding stop_session
stop_session-IsLawful session now none = pure-IsLawful tt
stop_session-IsLawful session now (some s) =
    bind-IsLawful _ _ (find_preview_of-IsLawful session) λ preview.
      bind-IsLawful _ _ (update_session-IsLawful session _)
        (λ _. stop_preview-IsLawful s.run_id now preview)

pub mark_preview_stopped-IsLawful : (session now : ℕ) → IsLawful (mark_preview_stopped session now)
unfolding mark_preview_stopped
mark_preview_stopped-IsLawful session now = record {
  runs = λ db. (stop_session-IsLawful session now (lookup session db.sandbox_sessions)).runs db;
}

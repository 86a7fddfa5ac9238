-- ===== src/Worker/Runs/Steps.antt =====
-- The worker's operations on a run, and the laws of the store.
use atoms_platform.Common.{ℕ, ◌≡◌, refl, ap, ◌∙◌, String, true, false, Option, none, some}
use atoms_platform.Store.{
  RunStatus, ApprovalScope, Run, Payload, ErrorJson, Db, Tx, ◌>>◌, find_run, find_run_or_throw,
  Forward, append_event, at_version, update_at, Lawful, Lawful-refl, IsLawful, is_final,
  at_version-eq, new_version, pure-IsLawful, if-IsLawful, bind-IsLawful, or_throw-IsLawful,
  update_run_if-IsLawful, append_event-IsLawful,
}
use atoms_platform.Worker.Runs.{
  RunJob, claim, commits, claim_won, claim_lost, claim_pending, claim_found, claim_run, pause_at,
  complete_at, fail_at, request_approval, complete_run, fail_run,
}

-- A compare-and-swap from an open status to the next control version.
pub update_at-IsLawful :
    (id : ℕ) (status : RunStatus) (version : ℕ) (change : Run → Run)
    → is_final status ≡ false
    → ((r : Run) → is_final r.status ≡ false → Forward r (change r))
    → ((r : Run) → (change r).event_sequence ≡ r.event_sequence)
    → IsLawful (update_at id status version change)
update_at-IsLawful id status version change alive forward same =
    update_run_if-IsLawful id (at_version status version) change
      (λ r g. forward r (ap is_final (at_version-eq status version r g).0 ∙ alive)) same

pub find_run-IsLawful : (id : ℕ) → IsLawful (find_run id)
find_run-IsLawful id = record { runs = λ db. Lawful-refl db }

pub find_run_or_throw-IsLawful : (id : ℕ) → IsLawful (find_run_or_throw id)
find_run_or_throw-IsLawful id = bind-IsLawful _ _ (find_run-IsLawful id) or_throw-IsLawful

pub append_then-IsLawful :
    {A : Type 0} (run : ℕ) (payload : Payload) (next : Tx A)
    → IsLawful next
    → IsLawful (append_event run payload >> next)
append_then-IsLawful run payload next h =
    bind-IsLawful _ _ (append_event-IsLawful run payload) (λ _. h)

claim_won-IsLawful : (job : RunJob) → IsLawful (claim_won job)
unfolding claim_won
claim_won-IsLawful job =
    bind-IsLawful _ _ (find_run_or_throw-IsLawful job.run_id)
      λ run. append_then-IsLawful job.run_id _ _ (pure-IsLawful _)

claim_lost-IsLawful : (job : RunJob) → IsLawful (claim_lost job)
unfolding claim_lost
claim_lost-IsLawful job =
    bind-IsLawful _ _ (find_run_or_throw-IsLawful job.run_id) λ latest. pure-IsLawful _

module _ (others : Db → Db) (keeps : (db : Db) → Lawful db (others db)) where
  claim_pending-IsLawful :
      (job : RunJob) (now : ℕ) (current : Run) → IsLawful (claim_pending others job now current)
  unfolding claim_pending
  claim_pending-IsLawful job now current =
      bind-IsLawful (commits others) _ (record { runs = keeps })
        λ _.
          bind-IsLawful _ _
            (update_at-IsLawful job.run_id RunStatus.pending job.control_version (claim current now)
              refl (λ r alive. new_version r _ alive refl refl refl refl) (λ r. refl))
            λ claimed. if-IsLawful claimed (claim_won-IsLawful job) (claim_lost-IsLawful job)

  claim_found-IsLawful :
      (job : RunJob) (now : ℕ) (current : Option Run)
      → IsLawful (claim_found others job now current)
  unfolding claim_found
  claim_found-IsLawful job now none = pure-IsLawful _
  claim_found-IsLawful job now (some current) =
      if-IsLawful _ (pure-IsLawful _)
        (if-IsLawful _ (claim_pending-IsLawful job now current) (pure-IsLawful _))

  pub claim_run-IsLawful : (job : RunJob) (now : ℕ) → IsLawful (claim_run others job now)
  unfolding claim_run
  claim_run-IsLawful job now =
      bind-IsLawful _ _ (find_run-IsLawful job.run_id) (claim_found-IsLawful job now)

pub request_approval-IsLawful :
    (run version : ℕ) (scope : ApprovalScope) (reason : String) (now : ℕ)
    → IsLawful (request_approval run version scope reason now)
unfolding request_approval
request_approval-IsLawful run version scope reason now =
    bind-IsLawful _ _
      (update_at-IsLawful run RunStatus.running version (pause_at now) refl
        (λ r alive. new_version r _ alive refl refl refl refl) (λ r. refl))
      λ updated.
        if-IsLawful updated (append_then-IsLawful run _ _ (pure-IsLawful true))
          (pure-IsLawful false)

pub complete_run-IsLawful : (run version now : ℕ) → IsLawful (complete_run run version now)
unfolding complete_run
complete_run-IsLawful run version now =
    bind-IsLawful _ _
      (update_at-IsLawful run RunStatus.running version (complete_at now) refl
        (λ r alive. new_version r _ alive refl refl refl refl) (λ r. refl))
      λ updated.
        if-IsLawful updated (append_then-IsLawful run _ _ (pure-IsLawful true))
          (pure-IsLawful false)

pub fail_run-IsLawful :
    (run version : ℕ) (error : ErrorJson) (now : ℕ) → IsLawful (fail_run run version error now)
unfolding fail_run
fail_run-IsLawful run version error now =
    bind-IsLawful _ _
      (update_at-IsLawful run RunStatus.running version (fail_at error now) refl
        (λ r alive. new_version r _ alive refl refl refl refl) (λ r. refl))
      λ updated.
        if-IsLawful updated (append_then-IsLawful run _ _ (pure-IsLawful true))
          (pure-IsLawful false)

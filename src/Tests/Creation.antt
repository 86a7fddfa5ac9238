-- ===== src/Tests/Creation.antt =====
-- Creation: the theorems on new runs at work.
use atoms_platform.Common.{◌≡◌, refl, true, none, some, [], ◌∷◌}
use atoms_platform.Store.{Command, Run, Project, ProjectType, Db, ok}
use atoms_platform.Control.Runs.{is_member}
use atoms_platform.Control.Creation.{
  CreateRunInput, created, idempotency_conflict, create_run_with_idempotency, create_in,
  create_or_replay, create_new, run_by_key, insert_run, clean_rows, all_found, snapshots,
  store_snapshots, replay, same_attachment_ids, sort, insert_sorted, attachments_of, new_run,
  contains,
}
use atoms_platform.Control.Runs.{Request}
use atoms_platform.Control.Start.{start_run, start_result, start_created, enqueue_start}
use atoms_platform.System.Handover.{started_job_claimable}
use atoms_platform.Worker.Runs.{RunJob, RunExecutionRecord, ready, claim_run}
use atoms_platform.Worker.Calls.Fencing.{holds}
use atoms_platform.Tests.{running_shop}

creation : Unit {0}
unfolding create_run_with_idempotency create_in create_or_replay create_new run_by_key insert_run
    clean_rows all_found snapshots store_snapshots replay same_attachment_ids sort insert_sorted
    attachments_of contains is_member
creation = tt

abbrev wish : CreateRunInput
wish = record {
  user = 7;
  project = 9;
  prompt = "Build a blog";
  idempotency_key = "second";
  attachment_ids = [];
}

abbrev other_wish : CreateRunInput
other_wish = record wish { prompt = "Build a bank" }

abbrev shop_project : Project
shop_project = record { workspace_id = 5; project_type = ProjectType.general; archived_at = none }

abbrev wished : Run
wished = new_run wish shop_project

abbrev wished_shop : Db
wished_shop = record running_shop { runs = (2, wished) ∷ running_shop.runs }

-- The same words are answered with the run, other words with the conflict.
replayed : replay wish (2, wished) [] ≡ created 2 wished true
unfolding creation
replayed = refl

conflicting : replay other_wish (2, wished) [] ≡ idempotency_conflict 2 wished
unfolding creation
conflicting = refl

abbrev calm_request : Request
calm_request = record {
  now = 20;
  execution_enabled = true;
  queue_accepts = λ job. true;
  queue_error = record {
    code = "QUEUE";
    name = none;
    message = "down";
    retryable = true;
    reason = none;
  };
  others = λ db. db;
}

abbrev wish_job : RunJob
wish_job = record {
  run_id = 2;
  command = Command.start;
  control_version = 0;
  approval_scope = none;
}

wish_queued : (start_run calm_request 2 wish running_shop).queued ≡ some wish_job
unfolding creation start_run start_result start_created enqueue_start
wish_queued = refl

started_job_claimable_example :
    (row : RunExecutionRecord) × (db' : Db) × (claim_run
        (λ d. d)
        wish_job
        40
        (start_run calm_request 2 wish running_shop).stored
      ≡ ok (ready row, db'))
    × (row.id ≡ 2)
    × (row.control_version ≡ 1)
    × (holds 2 1 db' ≡ true)
started_job_claimable_example =
    started_job_claimable calm_request 2 wish running_shop wish_job 40 wish_queued

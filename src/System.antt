-- ===== src/System.antt =====
-- The control plane, the workers and the sweeps on one database: the histories of the modelled
-- operations, with the events that the other writers of run_events add.
pub mod Safety
pub mod Handover
pub mod Jobs
pub mod Releases
use atoms_platform.Common.{ℕ, ◌≡◌, Option}
use atoms_platform.Store.{Json, Run, ErrorJson, Db, Payload, append_row, after}
use atoms_platform.Worker.Runs.{RunJob, claim_run}
use atoms_platform.Worker.Completion.{Parsers}
use atoms_platform.Worker.Sandboxes.{mark_sandbox_failed}
use atoms_platform.Worker.Previews.{
  PreviewData, CreatePreviewReopenSessionInput, create_preview_reopen_session,
  record_preview_reopened, record_preview_reopen_failed, mark_preview_stopped,
}
use atoms_platform.Worker.Calls.{WorkerCall, perform}
use atoms_platform.Control.Runs.{ActionInput, Request, control_run, mark_run_failed}
use atoms_platform.Control.Creation.{CreateRunInput}
use atoms_platform.Control.Start.{start_run}
use atoms_platform.Control.Files.{FileContentInput, put_project_file}
use atoms_platform.Expiry.{expiry_sweep_once, reminder_sweep_once, purge_sweep_once}

-- From one database to a later one. Where an operation lets other connections in, what they commit
-- is itself a history.
pub data History : Db → Db → Type 0 where
  start : (db : Db) → History db db
  also : {a b c : Db} → History a b → History b c → History a c
  work : (env : Parsers) (call : WorkerCall) (db : Db) → History db (after db (perform env call db))
  claims :
      (others : Db → Db)
      → ((db : Db) → History db (others db))
      → (job : RunJob) (now : ℕ) (db : Db) → History db (after db (claim_run others job now db))
  acts :
      (q : Request)
      → ((db : Db) → History db (q.others db))
      → (user run : ℕ) (i : ActionInput) (db : Db) → History db (control_run q user run i db).stored
  creates :
      (q : Request)
      → ((db : Db) → History db (q.others db))
      → (new_id : ℕ) (i : CreateRunInput) (db : Db) → History db (start_run q new_id i db).stored
  unqueued :
      (run version : ℕ) (error : ErrorJson) (now : ℕ) (db : Db)
      → History db (after db (mark_run_failed run version error now db))
  edits :
      (user project : ℕ) (i : FileContentInput) (db : Db)
      → History db (after db (put_project_file user project i db))
  expires :
      (others : Db → Db)
      → ((db : Db) → History db (others db))
      → (ttl now batch : ℕ) (db : Db) → History db (expiry_sweep_once others ttl now batch db).1
  reminds :
      (others : Db → Db)
      → ((db : Db) → History db (others db))
      → (wait now batch : ℕ) (db : Db) → History db (reminder_sweep_once others wait now batch db).1
  purges :
      (others : Db → Db)
      → ((db : Db) → History db (others db))
      → (wait now batch : ℕ) (db : Db) → History db (purge_sweep_once others wait now batch db).1
  breaks :
      (session : ℕ) (error : Json) (now : ℕ) (db : Db)
      → History db (after db (mark_sandbox_failed session error now db))
  reopens :
      (new_id : ℕ) (i : CreatePreviewReopenSessionInput) (db : Db)
      → History db (after db (create_preview_reopen_session new_id i db))
  reopened : (d : PreviewData) (db : Db) → History db (after db (record_preview_reopened d db))
  not_reopened :
      (run : ℕ) (session : Option ℕ) (error : Json) (now : ℕ) (db : Db)
      → History db (after db (record_preview_reopen_failed run session error now db))
  stops : (session now : ℕ) (db : Db) → History db (after db (mark_preview_stopped session now db))
  -- An event of another writer: the statuses of generated databases and the assessments of releases.
  publishes :
      (run : ℕ) (payload : Payload) (db : Db) → History db (after db (append_row run payload db))
  -- Operations on other tables: projects, members, uploads.
  elsewhere : (a b : Db) → b.runs ≡ a.runs → b.events ≡ a.events → b.files ≡ a.files → History a b

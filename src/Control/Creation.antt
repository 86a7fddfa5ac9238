-- ===== src/Control/Creation.antt =====
-- repository.ts of the control plane, `createRunWithIdempotency`.
pub mod Replays
pub mod Repeats
use atoms_platform.Common.{
  ℕ, zero, suc, String, Bool, true, false, ◌&&◌, ◌||◌, not, Option, none, some, List, [], ◌∷◌, ◌++◌,
  ◌==◌, leb, str_eq, if◌then◌else◌, length, keep, is_some,
}
use atoms_platform.Common.Table.{Table, lookup}
use atoms_platform.Store.{
  RunStatus, AttachmentStatus, Run, Project, Attachment, RunAttachment, Db, DbError, Outcome, Tx,
  ok, thrown, unique_violation, fault, pure, throw, ◌>>=◌, ◌>>◌,
}
use atoms_platform.Control.Runs.{is_member}
use atoms_platform.Worker.Runs.{commits}

unfoldable pub insert_sorted : ℕ → List ℕ → List ℕ
insert_sorted a [] = a ∷ []
insert_sorted a (b ∷ bs) = if leb a b then a ∷ b ∷ bs else b ∷ insert_sorted a bs

unfoldable pub sort : List ℕ → List ℕ
unfolding insert_sorted
sort [] = []
sort (a ∷ as') = insert_sorted a (sort as')

abbrev pub same_ids : List ℕ → List ℕ → Bool
same_ids [] [] = true
same_ids (a ∷ as') (b ∷ bs) = a == b && same_ids as' bs
same_ids _ _ = false

-- `sameAttachmentIds`
unfoldable pub same_attachment_ids : List ℕ → List ℕ → Bool
unfolding sort
same_attachment_ids left right =
    if length left == length right then same_ids (sort left) (sort right) else false

pub record CreateRunInput : Type 0 where
  pub user : ℕ
  pub project : ℕ
  pub prompt : String
  pub idempotency_key : String
  pub attachment_ids : List ℕ

pub data CreateRunResult : Type 0 where
  project_not_found : CreateRunResult
  idempotency_conflict : (run : ℕ) → Run → CreateRunResult
  created : (run : ℕ) → Run → (replayed : Bool) → CreateRunResult

abbrev has_key : (project : ℕ) → String → Run → Bool
has_key project key r =
    r.project_id == project && elim r.idempotency_key [ none ↦ false | some k ↦ str_eq k key ]

-- `findFirst` by project and idempotency key.
unfoldable pub run_by_key : (project : ℕ) → String → Table Run → Option (ℕ × Run)
run_by_key project key [] = none
run_by_key project key ((id, r) ∷ t) =
    if has_key project key r then some (id, r) else run_by_key project key t

unfoldable pub attachments_of : ℕ → List RunAttachment → List ℕ
attachments_of run [] = []
attachments_of run (a ∷ as') =
    if a.run_id == run then a.attachment_id ∷ attachments_of run as' else attachments_of run as'

-- A project that is not archived, in a workspace of the user.
abbrev pub open_project : (user : ℕ) → Option Project → List (ℕ × ℕ) → Option Project
open_project user none members = none
open_project user (some p) members =
    if is_some p.archived_at
    then none
    else if is_member user p.workspace_id members
    then some p
    else none

-- A run that already has the key is given back if the request is the same, and refused otherwise.
unfoldable pub replay : CreateRunInput → ℕ × Run → List RunAttachment → CreateRunResult
unfolding same_attachment_ids attachments_of
replay i (id, r) stored =
    if str_eq r.prompt i.prompt && same_attachment_ids (attachments_of id stored) i.attachment_ids
    then created id r true
    else idempotency_conflict id r

abbrev is_clean : AttachmentStatus → Bool
is_clean AttachmentStatus.clean = true
is_clean _ = false

unfoldable pub contains : ℕ → List ℕ → Bool
contains a [] = false
contains a (b ∷ bs) = b == a || contains a bs

-- The rows of `findMany`: clean, of the project, and asked for.
unfoldable pub clean_rows : (project workspace : ℕ) → List ℕ → Table Attachment → Table Attachment
unfolding contains
clean_rows project workspace ids t =
    keep
      (λ e.
        contains e.0 ids
        && e.1.project_id == project
        && e.1.workspace_id == workspace
        && is_clean e.1.status)
      t

unfoldable pub all_found : List ℕ → Table Attachment → Bool
all_found [] t = true
all_found (id ∷ ids) t = is_some (lookup id t) && all_found ids t

abbrev snapshot :
    (run id : ℕ) → Option String → Option String → Option String → Option RunAttachment
snapshot run id (some kind) (some sha) (some key) = some (record {
  run_id = run;
  attachment_id = id;
  content_type = kind;
  sha256 = sha;
  object_key = key;
})
snapshot run id _ _ _ = none

abbrev add_snapshot :
    Option RunAttachment → Option (List RunAttachment) → Option (List RunAttachment)
add_snapshot (some a) (some rest) = some (a ∷ rest)
add_snapshot _ _ = none

-- The immutable snapshots of a new run; `none` if a clean row lacks a column.
unfoldable pub snapshots : ℕ → Table Attachment → Option (List RunAttachment)
snapshots run [] = some []
snapshots run ((id, a) ∷ t) =
    add_snapshot (snapshot run id a.detected_content_type a.sha256 a.clean_object_key)
      (snapshots run t)

abbrev pub new_run : CreateRunInput → Project → Run
new_run i p = record {
  workspace_id = p.workspace_id;
  project_id = i.project;
  idempotency_key = some i.idempotency_key;
  status = RunStatus.pending;
  prompt = i.prompt;
  checkpoint = none;
  error = none;
  event_sequence = 0;
  control_version = 0;
  started_at = none;
  paused_at = none;
  completed_at = none;
  cancelled_at = none;
  last_heartbeat_at = none;
  reminder_sent_at = none;
  purged_at = none;
}

-- `create`, under the primary key and the unique index on project and idempotency key.
unfoldable pub insert_run : (new_id : ℕ) → CreateRunInput → Project → Tx (Unit {0})
unfolding run_by_key
insert_run new_id i p db =
    if is_some (lookup new_id db.runs) || is_some (run_by_key i.project i.idempotency_key db.runs)
    then thrown unique_violation
    else ok (tt, record db { runs = (new_id, new_run i p) ∷ db.runs })

unfoldable pub store_snapshots : Option (List RunAttachment) → Tx (Unit {0})
store_snapshots none db = thrown (fault "RepositoryAttachmentError")
store_snapshots (some rows) db = ok (tt, record db { run_attachments = rows ++ db.run_attachments })

unfoldable pub create_new : (Db → Db) → (new_id : ℕ) → CreateRunInput → Project → Tx CreateRunResult
unfolding insert_run clean_rows all_found snapshots store_snapshots
create_new others new_id i p db =
    let rows = clean_rows i.project p.workspace_id i.attachment_ids db.attachments in
    if all_found i.attachment_ids rows
    then (do
      commits others
      insert_run new_id i p
      store_snapshots (snapshots new_id rows)
      pure (created new_id (new_run i p) false))
        db
    else thrown (fault "RepositoryAttachmentError")

unfoldable pub create_or_replay :
    (Db → Db) → (new_id : ℕ) → CreateRunInput → Project → Option (ℕ × Run) → Tx CreateRunResult
unfolding create_new replay
create_or_replay others new_id i p none db = create_new others new_id i p db
create_or_replay others new_id i p (some found) db = ok (replay i found db.run_attachments, db)

unfoldable pub create_in :
    (Db → Db) → (new_id : ℕ) → CreateRunInput → Option Project → Tx CreateRunResult
unfolding create_or_replay run_by_key
create_in others new_id i none db = ok (project_not_found, db)
create_in others new_id i (some p) db =
    create_or_replay others new_id i p (run_by_key i.project i.idempotency_key db.runs) db

abbrev pub recovered : CreateRunInput → Option (ℕ × Run) → Tx CreateRunResult
recovered i none db = thrown unique_violation
recovered i (some found) db = ok (replay i found db.run_attachments, db)

-- The handler of P2002: another request with the key won the race.
abbrev pub recover :
    (Db → Db)
    → CreateRunInput
    → Db
    → Outcome (CreateRunResult × Db)
    → Outcome (CreateRunResult × Db)
recover others i db (thrown unique_violation) =
    recovered i (run_by_key i.project i.idempotency_key (others db).runs) (others db)
recover others i db o = o

-- `createRunWithIdempotency`; `others` is what other connections commit before the insert.
unfoldable pub create_run_with_idempotency :
    (Db → Db) → (new_id : ℕ) → CreateRunInput → Tx CreateRunResult
unfolding create_in
create_run_with_idempotency others new_id i db =
    recover others i db
      (create_in others new_id i (open_project i.user (lookup i.project db.projects) db.members) db)

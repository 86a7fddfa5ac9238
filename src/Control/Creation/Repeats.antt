-- ===== src/Control/Creation/Repeats.antt =====
-- `createRunWithIdempotency` called twice with one key.

use atoms_platform.Common.{String, ℕ, ◌≡◌, true, false, List, ◌∷◌}
use atoms_platform.Common.Table.{Table}
use atoms_platform.Store.{Run, Project, RunAttachment, Db, Outcome, ok}
use atoms_platform.Control.Creation.{
  same_attachment_ids, attachments_of, idempotency_conflict, CreateRunInput, CreateRunResult,
  created, new_run,
}

-- A new run is the new row of the request; projects and members stay.
abbrev Creates : CreateRunInput → Project → Db → Outcome (CreateRunResult × Db) → Type 0
Creates i p db (ok (created k r false, db')) =
    (db'.runs ≡ (k, new_run i p) ∷ db.runs)
    × (r ≡ new_run i p)
    × (db'.projects ≡ db.projects)
    × (db'.members ≡ db.members)
Creates i p db o = Unit

module _ (i : CreateRunInput) (p : Project) (id : ℕ) (db : Db) where
  abbrev inserted : Db
  inserted = record db { runs = (id, new_run i p) ∷ db.runs }

-- The request is the same: its prompt, and its attachments in any order.
abbrev pub IsRepeat : CreateRunInput → (prompt : String) → (stored : List ℕ) → Type 0
IsRepeat j prompt stored =
    (prompt ≡ j.prompt) × (same_attachment_ids stored j.attachment_ids ≡ true)

-- The answer to a request whose key has a run.
abbrev pub Answers :
    CreateRunInput → (run : ℕ) → Run → List RunAttachment → CreateRunResult → Type 0
Answers j k r stored answer =
    (IsRepeat j r.prompt (attachments_of k stored) → answer ≡ created k r true)
    × (¬ IsRepeat j r.prompt (attachments_of k stored) → answer ≡ idempotency_conflict k r)

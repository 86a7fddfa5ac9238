-- ===== src/Control/Creation/Replays.antt =====
-- `createRunWithIdempotency`: the laws of the store, and a key that is taken.

use atoms_platform.Common.{
  ℕ, ◌≡◌, refl, ap, ◌∙◌, sym, Bool, true, false, ◌||◌, inl, inr, Option, none, some, List, ◌∷◌,
  ◌==◌, ==_iff, if◌then◌else◌, is_some, arith, Bool-cases, if_both,
}
use atoms_platform.Common.Table.{lookup}
use atoms_platform.Store.{
  Run, Project, RunAttachment, Db, Outcome, ok, thrown, unique_violation, not_found, fault, down,
  last_sequence, Later, Lawful, Lawful-refl, Leads, IsLawful, pure-IsLawful, bind-IsLawful,
  Forward-refl,
}
use atoms_platform.Worker.Runs.{commits}
use atoms_platform.Control.Creation.{
  CreateRunInput, CreateRunResult, created, recovered, recover, run_by_key, replay, new_run,
  open_project, clean_rows, all_found, insert_run, snapshots, store_snapshots, create_new,
  create_or_replay, create_in, create_run_with_idempotency,
}

Later-same : (o : Option Run) → Later o o
Later-same none = tt
Later-same (some r) = Forward-refl r

insert-Later :
    (hit : Bool) (o : Option Run) (r : Run)
    → (hit ≡ true → o ≡ none)
    → Later o (if hit then some r else o)
insert-Later true none r h = tt
insert-Later true (some s) r h = absurd (cc (h refl))
insert-Later false o r h = Later-same o

insert_gapless :
    (hit : Bool) (o : Option Run) (r : Run)
    → r.event_sequence ≡ 0
    → (hit ≡ true → o ≡ none)
    → last_sequence o ≡ last_sequence (if hit then some r else o)
insert_gapless true none r e h = sym e
insert_gapless true (some s) r e h = absurd (cc (h refl))
insert_gapless false o r e h = refl

-- A run whose counter is zero may be added under a free id.
insert-Lawful :
    (id : ℕ) (r : Run) (db : Db)
    → lookup id db.runs ≡ none
    → r.event_sequence ≡ 0
    → Lawful db (record db { runs = (id, r) ∷ db.runs })
insert-Lawful id r db free start = record {
  later = λ k. insert-Later (k == id) (lookup k db.runs) r (λ e. rw ((==_iff k id).0 e) free);
  gapless = λ h k.
      h k
      ∙ ap down
          (insert_gapless (k == id) (lookup k db.runs) r start (λ e. rw ((==_iff k id).0 e) free));
  contiguous = λ h. h;
}

none_of : (o : Option Run) → is_some o ≡ false → o ≡ none
none_of none h = refl
none_of (some r) h = absurd (cc)

insert_run-IsLawful : (id : ℕ) (i : CreateRunInput) (p : Project) → IsLawful (insert_run id i p)
unfolding insert_run
insert_run-IsLawful id i p = record {
  runs = λ db.
      elim (Bool-cases
        (is_some (lookup id db.runs) || is_some (run_by_key i.project i.idempotency_key db.runs))) [
          | inl taken ↦ rw taken tt
          | inr free ↦
              rw free (
                insert-Lawful id (new_run i p) db (none_of (lookup id db.runs) (ground arith)) refl)
        ];
}

store_snapshots-IsLawful : (rows : Option (List RunAttachment)) → IsLawful (store_snapshots rows)
unfolding store_snapshots
store_snapshots-IsLawful none = record { runs = λ db. tt }
store_snapshots-IsLawful (some rows) = record {
  runs = λ db. record { later = (Lawful-refl db).later; gapless = λ h. h; contiguous = λ h. h };
}

module _ (others : Db → Db) (keeps : (db : Db) → Lawful db (others db)) where
  create_new-Leads :
      (id : ℕ) (i : CreateRunInput) (p : Project) (db : Db) → Leads db (create_new others id i p db)
  unfolding create_new
  create_new-Leads id i p db =
      if_both (Leads db)
        (all_found i.attachment_ids
          (clean_rows i.project p.workspace_id i.attachment_ids db.attachments))
        ((bind-IsLawful (commits others) _ (record { runs = keeps })
            λ _. bind-IsLawful _ _ (insert_run-IsLawful id i p) λ _.
              bind-IsLawful _ _
                (store_snapshots-IsLawful (
                  snapshots id
                    (clean_rows i.project p.workspace_id i.attachment_ids db.attachments)))
                λ _. pure-IsLawful (created id (new_run i p) false)).runs
          db)
        tt

  create_or_replay-Leads :
      (id : ℕ) (i : CreateRunInput) (p : Project) (o : Option (ℕ × Run)) (db : Db)
      → Leads db (create_or_replay others id i p o db)
  unfolding create_or_replay
  create_or_replay-Leads id i p none db = create_new-Leads id i p db
  create_or_replay-Leads id i p (some found) db = Lawful-refl db

  create_in-Leads :
      (id : ℕ) (i : CreateRunInput) (o : Option Project) (db : Db)
      → Leads db (create_in others id i o db)
  unfolding create_in
  create_in-Leads id i none db = Lawful-refl db
  create_in-Leads id i (some p) db = create_or_replay-Leads id i p _ db

  recovered-Leads :
      (i : CreateRunInput) (db : Db) (o : Option (ℕ × Run)) → Leads db (recovered i o (others db))
  recovered-Leads i db none = tt
  recovered-Leads i db (some found) = keeps db

  recover-Leads :
      (i : CreateRunInput) (db : Db) (o : Outcome (CreateRunResult × Db))
      → Leads db o
      → Leads db (recover others i db o)
  recover-Leads i db (ok a) h = h
  recover-Leads i db (thrown unique_violation) h = recovered-Leads i db _
  recover-Leads i db (thrown not_found) h = tt
  recover-Leads i db (thrown (fault e)) h = tt

  -- Creating a run keeps the laws, whatever other connections commit before the insert.
  pub create_run-IsLawful :
      (id : ℕ) (i : CreateRunInput) → IsLawful (create_run_with_idempotency others id i)
  unfolding create_run_with_idempotency
  create_run-IsLawful id i = record {
    runs = λ db. recover-Leads i db _ (create_in-Leads id i _ db);
  }

-- A project and key that a run has already create nothing, whatever else the request says: the run
-- is given back, or the request is refused.
pub create_taken :
    (others : Db → Db) (new_id : ℕ) (i : CreateRunInput) (db : Db) (p : Project) (id : ℕ) (r : Run)
    → open_project i.user (lookup i.project db.projects) db.members ≡ some p
    → run_by_key i.project i.idempotency_key db.runs ≡ some (id, r)
    → create_run_with_idempotency others new_id i db ≡ ok (replay i (id, r) db.run_attachments, db)
unfolding create_run_with_idempotency create_in create_or_replay
create_taken others new_id i db p id r may found = rw (may, found) refl

-- ===== src/Control/Start/Fresh.antt =====
-- The run that `createRunWithIdempotency` reports as new.

use atoms_platform.Common.{
  ℕ, ◌≡◌, refl, sym, true, false, ◌&&◌, ◌||◌, Option, none, some, List, ◌∷◌, ==_iff, str_eq,
  is_some, inl, inr, Bool-cases, if_both, subst,
}
use atoms_platform.Common.Table.{lookup}
use atoms_platform.Store.{
  RunStatus, Run, Project, RunAttachment, Db, Outcome, ok, thrown, unique_violation, not_found,
  fault, pure, ◌>>◌, bind_eq, bind_thrown,
}
use atoms_platform.Control.Creation.{
  CreateRunInput, CreateRunResult, idempotency_conflict, created, recovered, recover, run_by_key,
  same_attachment_ids, attachments_of, replay, new_run, clean_rows, all_found, insert_run,
  snapshots, store_snapshots, create_new, create_or_replay, create_in, create_run_with_idempotency,
}

-- A run that is new is there, and waits.
abbrev pub Fresh : Outcome (CreateRunResult × Db) → Type 0
Fresh (ok (created k r false, db)) = (lookup k db.runs ≡ some r) × (r.status ≡ RunStatus.pending)
Fresh o = Unit

module _ (others : Db → Db) (i : CreateRunInput) where
  stored-Fresh :
      (id : ℕ) (r : Run) (o : Option (List RunAttachment)) (db : Db)
      → lookup id db.runs ≡ some r
      → r.status ≡ RunStatus.pending
      → Fresh ((store_snapshots o >> pure (created id r false)) db)
  unfolding store_snapshots
  stored-Fresh id r none db found waits = tt
  stored-Fresh id r (some rows) db found waits = (found, waits)

  insert_eq :
      (id : ℕ) (p : Project) (db : Db)
      → is_some (lookup id db.runs) || is_some (run_by_key i.project i.idempotency_key db.runs)
        ≡ false
      → insert_run id i p db ≡ ok (tt, record db { runs = (id, new_run i p) ∷ db.runs })
  unfolding insert_run
  insert_eq id p db free = rw free

  insert_refused :
      (id : ℕ) (p : Project) (db : Db)
      → is_some (lookup id db.runs) || is_some (run_by_key i.project i.idempotency_key db.runs)
        ≡ true
      → insert_run id i p db ≡ thrown unique_violation
  unfolding insert_run
  insert_refused id p db taken = rw taken

  insert-Fresh :
      (id : ℕ) (p : Project) (o : Option (List RunAttachment)) (db : Db)
      → Fresh
          ((insert_run id i p >> (store_snapshots o >> pure (created id (new_run i p) false))) db)
  insert-Fresh id p o db =
      let rest = store_snapshots o >> pure (created id (new_run i p) false) in
      elim (Bool-cases
        (is_some (lookup id db.runs) || is_some (run_by_key i.project i.idempotency_key db.runs))) [
          | inl taken ↦
              subst Fresh
                (sym
                  (bind_thrown (insert_run id i p) (λ _. rest) db (insert_refused id p db taken)))
                tt
          | inr free ↦
              subst Fresh
                (sym (bind_eq (insert_run id i p) (λ _. rest) db (insert_eq id p db free)))
                (stored-Fresh id (new_run i p) o (record db { runs = (id, new_run i p) ∷ db.runs })
                  (rw ((==_iff id id).1 refl) refl) refl)
        ]

  create_new-Fresh : (id : ℕ) (p : Project) (db : Db) → Fresh (create_new others id i p db)
  unfolding create_new
  create_new-Fresh id p db =
      let rows = clean_rows i.project p.workspace_id i.attachment_ids db.attachments in
      if_both Fresh (all_found i.attachment_ids rows)
        (insert-Fresh id p (snapshots id rows) (others db)) tt

  replay-Fresh :
      (found : ℕ × Run) (stored : List RunAttachment) (db : Db)
      → Fresh (ok (replay i found stored, db))
  unfolding replay
  replay-Fresh (id, r) stored db =
      if_both (λ a. Fresh (ok (a, db)))
        (str_eq r.prompt i.prompt
          && same_attachment_ids (attachments_of id stored) i.attachment_ids)
        {x = created id r true} {y = idempotency_conflict id r} tt tt

  create_or_replay-Fresh :
      (id : ℕ) (p : Project) (o : Option (ℕ × Run)) (db : Db)
      → Fresh (create_or_replay others id i p o db)
  unfolding create_or_replay
  create_or_replay-Fresh id p none db = create_new-Fresh id p db
  create_or_replay-Fresh id p (some found) db = replay-Fresh found db.run_attachments db

  create_in-Fresh : (id : ℕ) (o : Option Project) (db : Db) → Fresh (create_in others id i o db)
  unfolding create_in
  create_in-Fresh id none db = tt
  create_in-Fresh id (some p) db = create_or_replay-Fresh id p _ db

  recovered-Fresh : (o : Option (ℕ × Run)) (db : Db) → Fresh (recovered i o db)
  recovered-Fresh none db = tt
  recovered-Fresh (some found) db = replay-Fresh found db.run_attachments db

  recover-Fresh :
      (db : Db) (o : Outcome (CreateRunResult × Db)) → Fresh o → Fresh (recover others i db o)
  recover-Fresh db (ok a) h = h
  recover-Fresh db (thrown unique_violation) h = recovered-Fresh _ (others db)
  recover-Fresh db (thrown not_found) h = tt
  recover-Fresh db (thrown (fault e)) h = tt

  pub create_run-Fresh : (id : ℕ) (db : Db) → Fresh (create_run_with_idempotency others id i db)
  unfolding create_run_with_idempotency
  create_run-Fresh id db = recover-Fresh db _ (create_in-Fresh id _ db)

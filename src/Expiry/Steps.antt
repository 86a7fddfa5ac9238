-- ===== src/Expiry/Steps.antt =====
-- approval-expiry.ts: the sweeps and the laws of the store.

use atoms_platform.Common.{
  ℕ, zero, suc, ◌-◌, refl, Bool, true, false, none, some, [], ◌∷◌, ltb, length, arith, inl, if_both,
}
use atoms_platform.Common.Table.{Table}
use atoms_platform.Store.{
  RunStatus, Run, Payload, Db, Outcome, Tx, ok, thrown, new_version, Forward, Lawful, Lawful-refl,
  Lawful-trans, Leads, IsLawful, pure-IsLawful, if-IsLawful, bind-IsLawful, update_run_if-IsLawful,
}
use atoms_platform.Worker.Runs.Steps.{update_at-IsLawful, append_then-IsLawful}
use atoms_platform.Expiry.{
  Batch, or_now, max_batches_per_sweep, then_rest, next_batch, for_each, expire_at, expire_one,
  expire_paused_runs, remind_at, remind_one, send_reminders, purge_at, clear_data, purge_one,
  purge_expired_run_data, sweep, expiry_sweep_once, reminder_sweep_once, purge_sweep_once,
}

expire_one-IsLawful : (now : ℕ) (c : ℕ × Run) → IsLawful (expire_one now c)
unfolding expire_one
expire_one-IsLawful now (id, seen) =
    update_at-IsLawful id RunStatus.paused seen.control_version (expire_at now) refl
      (λ r alive. new_version r _ alive refl refl refl refl) (λ r. refl)

remind-Forward : (now : ℕ) (r : Run) → Forward r (remind_at now r)
remind-Forward now r = record {
  same_workspace = refl;
  same_project = refl;
  version_grows = omega arith;
  sequence_grows = omega arith;
  final = λ f. (refl, refl);
  fenced = λ e. inl refl;
}

remind_one-IsLawful : (now : ℕ) (c : ℕ × Run) → IsLawful (remind_one now c)
unfolding remind_one
remind_one-IsLawful now (id, seen) =
    bind-IsLawful _ _
      (update_run_if-IsLawful id _ (remind_at now) (λ r _. remind-Forward now r) (λ r. refl))
      λ updated.
        if-IsLawful updated (append_then-IsLawful id _ _ (pure-IsLawful true)) (pure-IsLawful false)

purge-Forward : (now : ℕ) (r : Run) → Forward r (purge_at now r)
purge-Forward now r = record {
  same_workspace = refl;
  same_project = refl;
  version_grows = omega arith;
  sequence_grows = omega arith;
  final = λ f. (refl, refl);
  fenced = λ e. inl refl;
}

clear_data-IsLawful : (run : ℕ) → IsLawful (clear_data run)
unfolding clear_data
clear_data-IsLawful run = record {
  runs = λ db. record { later = (Lawful-refl db).later; gapless = λ h. h; contiguous = λ h. h };
}

purge_one-IsLawful : (now : ℕ) (c : ℕ × Run) → IsLawful (purge_one now c)
unfolding purge_one
purge_one-IsLawful now (id, seen) =
    bind-IsLawful _ _
      (update_run_if-IsLawful id _ (purge_at now) (λ r _. purge-Forward now r) (λ r. refl))
      λ updated.
        if-IsLawful updated
          (bind-IsLawful (clear_data id) _ (clear_data-IsLawful id) λ _.
            append_then-IsLawful id (Payload.data_purged (or_now seen.cancelled_at now)) _
              (pure-IsLawful true))
          (pure-IsLawful false)

module _ (others : Db → Db) (keeps : (db : Db) → Lawful db (others db)) where
  then_rest-Lawful :
      (id : ℕ) (db : Db) (o : Outcome (Bool × Db)) (rest : Db → Batch)
      → Leads db o
      → ((b : Db) → Lawful b (rest b).1)
      → Lawful db (then_rest id db o rest).1
  then_rest-Lawful id db (thrown e) rest h k = Lawful-refl db
  then_rest-Lawful id db (ok (done, db')) rest h k = Lawful-trans h (k db')

  for_each-Lawful :
      (step : ℕ × Run → Tx Bool)
      → ((c : ℕ × Run) → IsLawful (step c))
      → (cs : Table Run) (db : Db) → Lawful db (for_each others step cs db).1
  unfolding for_each
  for_each-Lawful step h [] db = Lawful-refl db
  for_each-Lawful step h (c ∷ cs) db = Lawful-trans (keeps db) (
      then_rest-Lawful c.0 (others db) (step c (others db)) (for_each others step cs)
        ((h c).runs (others db)) (for_each-Lawful step h cs))

  expire_paused_runs-Lawful :
      (before now limit : ℕ) (db : Db) → Lawful db (expire_paused_runs others before now limit db).1
  unfolding expire_paused_runs
  expire_paused_runs-Lawful before now limit db =
      for_each-Lawful (expire_one now) (expire_one-IsLawful now) _ db

  send_reminders-Lawful :
      (before now limit : ℕ) (db : Db) → Lawful db (send_reminders others before now limit db).1
  unfolding send_reminders
  send_reminders-Lawful before now limit db =
      for_each-Lawful (remind_one now) (remind_one-IsLawful now) _ db

  purge_expired_run_data-Lawful :
      (before now limit : ℕ) (db : Db)
      → Lawful db (purge_expired_run_data others before now limit db).1
  unfolding purge_expired_run_data
  purge_expired_run_data-Lawful before now limit db =
      for_each-Lawful (purge_one now) (purge_one-IsLawful now) _ db

  next_batch-Lawful :
      (limit : ℕ) (db : Db) (o : Batch) (rest : Db → ℕ × Db)
      → Lawful db o.1
      → ((b : Db) → Lawful b (rest b).1)
      → Lawful db (next_batch limit o rest).1
  next_batch-Lawful limit db (none, db') rest h k = h
  next_batch-Lawful limit db (some ids, db') rest h k =
      if_both (λ (o : ℕ × Db). Lawful db o.1) (ltb (length ids) limit) h (Lawful-trans h (k db'))

  sweep-Lawful :
      (limit batches : ℕ) (step : Db → Batch)
      → ((db : Db) → Lawful db (step db).1)
      → (db : Db) → Lawful db (sweep limit batches step db).1
  unfolding sweep
  sweep-Lawful limit zero step h db = Lawful-refl db
  sweep-Lawful limit (suc batches) step h db =
      next_batch-Lawful limit db (step db) (sweep limit batches step) (h db)
        (sweep-Lawful limit batches step h)

  pub expiry_sweep_once-Lawful :
      (ttl now size : ℕ) (db : Db) → Lawful db (expiry_sweep_once others ttl now size db).1
  unfolding expiry_sweep_once
  expiry_sweep_once-Lawful ttl now size db =
      sweep-Lawful size max_batches_per_sweep (expire_paused_runs others (now - ttl) now size)
        (expire_paused_runs-Lawful (now - ttl) now size) db

  pub reminder_sweep_once-Lawful :
      (wait now size : ℕ) (db : Db) → Lawful db (reminder_sweep_once others wait now size db).1
  unfolding reminder_sweep_once
  reminder_sweep_once-Lawful wait now size db =
      sweep-Lawful size max_batches_per_sweep (send_reminders others (now - wait) now size)
        (send_reminders-Lawful (now - wait) now size) db

  pub purge_sweep_once-Lawful :
      (wait now size : ℕ) (db : Db) → Lawful db (purge_sweep_once others wait now size db).1
  unfolding purge_sweep_once
  purge_sweep_once-Lawful wait now size db =
      sweep-Lawful size max_batches_per_sweep (purge_expired_run_data others (now - wait) now size)
        (purge_expired_run_data-Lawful (now - wait) now size) db

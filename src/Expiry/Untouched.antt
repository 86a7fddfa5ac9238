-- ===== src/Expiry/Untouched.antt =====
-- approval-expiry.ts: the rows that a whole sweep does not look for.

use atoms_platform.Common.{ℕ, ◌-◌, ◌≡◌, ◌≢◌, refl, ◌∙◌, Bool, true, false, not, Option, some, arith}
use atoms_platform.Common.Table.{lookup}
use atoms_platform.Store.{RunStatus, Run, Db, matches, same_status→≡}
use atoms_platform.Expiry.{
  max_batches_per_sweep, expire_one, expire_paused_runs, awaits_reminder, remind_one,
  send_reminders, awaits_purge, purge_one, purge_expired_run_data, expiry_sweep_once,
  reminder_sweep_once, purge_sweep_once,
}
use atoms_platform.Expiry.Spares.{
  sweep-Same, for_each-Same, is_paused, expire_one-Kept, remind_one-Kept, purge_one-Kept,
}

is_false : (b : Bool) → (b ≡ true → ⊥) → not b ≡ true
is_false true h = absurd (h refl)
is_false false h = refl

fails :
    (guard : Run → Bool) (o : Option Run) (r : Run)
    → o ≡ some r
    → (guard r ≡ true → ⊥)
    → not (matches guard o) ≡ true
fails guard o r e h = rw e (is_false (guard r) h)

-- The expiry sweep leaves a run that is not PAUSED exactly as it is, whatever the other connections
-- do to other rows meanwhile.
pub expiry_sweep_spares :
    (others : Db → Db) (ttl now size run : ℕ) (db : Db) (r : Run)
    → ((d : Db) → lookup run (others d).runs ≡ lookup run d.runs)
    → lookup run db.runs ≡ some r
    → r.status ≢ RunStatus.paused
    → lookup run (expiry_sweep_once others ttl now size db).1.runs ≡ some r
unfolding expiry_sweep_once expire_paused_runs
expiry_sweep_spares others ttl now size run db r quiet found awake =
    let safe = fails is_paused (lookup run db.runs) r found (λ p. awake (same_status→≡ _ _ p)) in
    sweep-Same run others quiet (λ o. not (matches is_paused o)) size max_batches_per_sweep
      (expire_paused_runs others (now - ttl) now size)
      (λ d s.
        for_each-Same run others quiet (λ o. not (matches is_paused o)) (expire_one now)
          (expire_one-Kept run now) _ d s)
      db safe
    ∙ found

-- The reminder sweep leaves a run that has been reminded exactly as it is, its event counter
-- included, whatever the other connections do to other rows meanwhile.
pub reminder_sweep_spares :
    (others : Db → Db) (wait now size run sent : ℕ) (db : Db) (r : Run)
    → ((d : Db) → lookup run (others d).runs ≡ lookup run d.runs)
    → lookup run db.runs ≡ some r
    → r.reminder_sent_at ≡ some sent
    → lookup run (reminder_sweep_once others wait now size db).1.runs ≡ some r
unfolding reminder_sweep_once send_reminders
reminder_sweep_spares others wait now size run sent db r quiet found reminded =
    let safe = fails awaits_reminder (lookup run db.runs) r found (λ p. ground (arith, reminded)) in
    sweep-Same run others quiet (λ o. not (matches awaits_reminder o)) size max_batches_per_sweep
      (send_reminders others (now - wait) now size)
      (λ d s.
        for_each-Same run others quiet (λ o. not (matches awaits_reminder o)) (remind_one now)
          (remind_one-Kept run now) _ d s)
      db safe
    ∙ found

-- The purge leaves a run that is not CANCELLED exactly as it is, its prompt and checkpoint included,
-- whatever the other connections do to other rows meanwhile.
pub purge_sweep_spares :
    (others : Db → Db) (wait now size run : ℕ) (db : Db) (r : Run)
    → ((d : Db) → lookup run (others d).runs ≡ lookup run d.runs)
    → lookup run db.runs ≡ some r
    → r.status ≢ RunStatus.cancelled
    → lookup run (purge_sweep_once others wait now size db).1.runs ≡ some r
unfolding purge_sweep_once purge_expired_run_data
purge_sweep_spares others wait now size run db r quiet found kept =
    let safe =
      fails awaits_purge (lookup run db.runs) r found
        (λ p. kept (same_status→≡ _ _ (ground arith))) in
    sweep-Same run others quiet (λ o. not (matches awaits_purge o)) size max_batches_per_sweep
      (purge_expired_run_data others (now - wait) now size)
      (λ d s.
        for_each-Same run others quiet (λ o. not (matches awaits_purge o)) (purge_one now)
          (purge_one-Kept run now) _ d s)
      db safe
    ∙ found

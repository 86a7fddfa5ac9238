-- ===== src/Tests/Sweeps.antt =====
-- Sweeps: the theorems on the runs that they leave alone, at work.
use atoms_platform.Common.{◌≡◌, refl, some, []}
use atoms_platform.Common.Table.{lookup, modify}
use atoms_platform.Store.{RunStatus, Run, update_run_if}
use atoms_platform.Expiry.{
  expiry_sweep_once, reminder_sweep_once, purge_sweep_once, sweep, expire_paused_runs, for_each,
  expire_one, order_by, insert_by,
}
use atoms_platform.Expiry.Untouched.{expiry_sweep_spares, reminder_sweep_spares, purge_sweep_spares}
use atoms_platform.Tests.{run_in, shop, running_shop, finished_shop}

abbrev reminded_row : Run
reminded_row = record (run_in RunStatus.paused 2 0) {
  paused_at = some 10;
  reminder_sent_at = some 20;
}

-- A run that stays paused past the limit is cancelled.
expires_paused : (expiry_sweep_once (λ d. d) 5 100 10 (shop reminded_row [])).0 ≡ 1
unfolding expiry_sweep_once sweep expire_paused_runs for_each expire_one order_by insert_by
    update_run_if modify
expires_paused = refl

expiry_sweep_spares_example :
    lookup 1 (expiry_sweep_once (λ d. d) 5 100 10 running_shop).1.runs
    ≡ some (run_in RunStatus.running 1 1)
expiry_sweep_spares_example =
    expiry_sweep_spares (λ d. d) 5 100 10 1 running_shop (run_in RunStatus.running 1 1) (λ d. refl)
      refl (λ e. absurd (cc e))

reminder_sweep_spares_example :
    lookup 1 (reminder_sweep_once (λ d. d) 5 100 10 (shop reminded_row [])).1.runs
    ≡ some reminded_row
reminder_sweep_spares_example =
    reminder_sweep_spares (λ d. d) 5 100 10 1 20 (shop reminded_row []) reminded_row (λ d. refl)
      refl refl

purge_sweep_spares_example :
    lookup 1 (purge_sweep_once (λ d. d) 5 100 10 finished_shop).1.runs
    ≡ some (run_in RunStatus.completed 2 0)
purge_sweep_spares_example =
    purge_sweep_spares (λ d. d) 5 100 10 1 finished_shop (run_in RunStatus.completed 2 0)
      (λ d. refl) refl (λ e. absurd (cc e))

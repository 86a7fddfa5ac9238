-- ===== src/Worker/Processor/Assessor.antt =====
-- The assessor of a release, whose answer the processor drops.
use atoms_platform.Common.{ℕ, ◌≡◌, refl, ap, Option, none, some}
use atoms_platform.Store.{Db}
use atoms_platform.Worker.Runs.{RunExecutionRecord}
use atoms_platform.Worker.Jobs.{
  World, Result, returned, raised, Job, give, ◌>>=◌, then_do, handle, catching,
}
use atoms_platform.Worker.Processor.{
  Processor, Effect, effect, RunAttempt, revoke_lease, revoke_quietly, fail_process, settle_failure,
  on_error, complete_process, after_validation,
}

module _ (assess : RunExecutionRecord → ℕ → Effect (Unit {0})) where
  -- The world as an assessment leaves it.
  abbrev pub assessed : RunExecutionRecord → (attempt : ℕ) → World → World
  assessed run attempt w = record w { db = (assess run attempt w.db).1 }

  dropped :
      {A : Type 0} (w : World) (o : Result (Unit {0}) × Db) (next : Job A)
      → then_do (λ x. next) (handle (λ e. give tt) (o.0, record w { db = o.1 }))
        ≡ next (record w { db = o.1 })
  unfolding give
  dropped w (returned tt, db) next = refl
  dropped w (raised e, db) next = refl

  -- Whatever an assessor does, and whether it answers or throws, it changes what becomes of a validated
  -- run only by what it leaves in the database: the outcome and every later step are those of a
  -- processor without an assessor that starts from there.
  pub after_validation-assessed :
      (q : Processor) (run : RunExecutionRecord) (attempt : RunAttempt) (lease : Option ℕ)
      (validated : ℕ) (w : World)
      → after_validation (record q { assessor = some assess }) run attempt lease validated w
        ≡ after_validation
            (record q { assessor = none })
            run
            attempt
            lease
            validated
            (assessed run validated w)
  unfolding after_validation complete_process on_error revoke_quietly revoke_lease settle_failure
      fail_process catching effect give ◌>>=◌
  after_validation-assessed q run attempt lease validated w =
      ap (handle (on_error (record q { assessor = none }) run attempt lease)) (
        dropped w (assess run validated w.db)
          (complete_process (record q { assessor = none }) run lease))

-- ===== src/Tests/Errors.antt =====
-- Errors: the theorem on wrapped errors at work.
use atoms_platform.Common.{◌≡◌, refl, none, some, false, [], ◌∷◌, arith}
use atoms_platform.Worker.Errors.{
  ErrorClass, ErrorNode, classify_run_failure, is_retryable_error, retryable_within,
  budget_exhausted, classify_within,
}
use atoms_platform.Worker.Errors.Wrapping.{classify_wrapped}

abbrev wrapper : ErrorNode
wrapper = record {
  class = ErrorClass.other;
  code = "";
  name = "Error";
  retryable = none;
  validation_step = none;
}

abbrev exhausted : ErrorNode
exhausted = record {
  class = ErrorClass.other;
  code = "PROVIDER_BUDGET_EXCEEDED";
  name = "ProviderBudgetError";
  retryable = some false;
  validation_step = none;
}

exhausted_class : classify_run_failure (exhausted ∷ []) ≡ budget_exhausted
unfolding classify_run_failure classify_within
exhausted_class = refl

wrapped_retry : is_retryable_error (wrapper ∷ exhausted ∷ []) ≡ false
unfolding is_retryable_error retryable_within
wrapped_retry = refl

classify_wrapped_example :
    classify_run_failure (wrapper ∷ exhausted ∷ []) ≡ classify_run_failure (exhausted ∷ [])
classify_wrapped_example = classify_wrapped wrapper (exhausted ∷ []) refl refl refl (omega arith)

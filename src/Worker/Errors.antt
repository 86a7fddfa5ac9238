-- ===== src/Worker/Errors.antt =====
-- apps/orchestrator-worker/src/errors.ts: reading an error through its causes.
pub mod Wrapping
use atoms_platform.Common.{
  ℕ, zero, suc, String, Bool, true, false, ◌||◌, Option, none, some, List, [], ◌∷◌, if◌then◌else◌,
  str_eq,
}

-- A RunStoppedError carries the status that it reports.
pub data ErrorClass : Type 0 where
  run_stopped : (status : String) → ErrorClass
  zod generated_file_conflict other : ErrorClass

-- An object in a chain of causes. A missing code or name is the empty text; `retryable` is there if
-- it is a Boolean, and the step if it is a text beside an exit code that is a number.
pub record ErrorNode : Type 0 where
  pub class : ErrorClass
  pub code : String
  pub name : String
  pub retryable : Option Bool
  pub validation_step : Option String

-- The bound on the depth of the walks. A chain lists an error and its causes up to the first that is
-- not an object or was seen before.
abbrev pub max_depth : ℕ
max_depth = 10

abbrev pub is_run_stopped : ErrorClass → Bool
is_run_stopped (run_stopped status) = true
is_run_stopped _ = false

unfoldable pub stopped_within : ℕ → List ErrorNode → Option ErrorNode
stopped_within zero chain = none
stopped_within (suc depth) [] = none
stopped_within (suc depth) (e ∷ causes) =
    if is_run_stopped e.class then some e else stopped_within depth causes

-- `findRunStoppedError`
unfoldable pub find_run_stopped_error : List ErrorNode → Option ErrorNode
unfolding stopped_within
find_run_stopped_error chain = stopped_within max_depth chain

abbrev pub or_later : Option Bool → Bool → Bool
or_later none later = later
or_later (some b) later = b

unfoldable pub retryable_within : ℕ → List ErrorNode → Bool
retryable_within zero chain = true
retryable_within (suc depth) [] = true
retryable_within (suc depth) (e ∷ causes) = or_later e.retryable (retryable_within depth causes)

abbrev pub never_retried : ErrorClass → Bool
never_retried ErrorClass.zod = true
never_retried ErrorClass.generated_file_conflict = true
never_retried _ = false

-- `isRetryableError`
unfoldable pub is_retryable_error : List ErrorNode → Bool
unfolding retryable_within
is_retryable_error [] = true
is_retryable_error (e ∷ causes) =
    if never_retried e.class then false else retryable_within max_depth (e ∷ causes)

pub data RunFailureReason : Type 0 where
  budget_exhausted validation provider internal : RunFailureReason

abbrev pub is_budget_code : String → Bool
is_budget_code code =
    str_eq code "PROVIDER_BUDGET_EXCEEDED" || str_eq code "WORKSPACE_BUDGET_EXCEEDED"

abbrev pub is_provider_name : String → Bool
is_provider_name name =
    str_eq name "ProviderBudgetError"
    || str_eq name "ModelGatewayError"
    || str_eq name "SandboxProviderError"

abbrev pub is_validation : ErrorNode → Bool
is_validation e =
    str_eq e.name "SandboxValidationError" || str_eq e.code "SANDBOX_VALIDATION_FAILED"

abbrev pub by_provider : Bool → RunFailureReason
by_provider true = provider
by_provider false = internal

unfoldable pub classify_within : ℕ → (provider_seen : Bool) → List ErrorNode → RunFailureReason
classify_within zero seen chain = by_provider seen
classify_within (suc depth) seen [] = by_provider seen
classify_within (suc depth) seen (e ∷ causes) =
    let rest = classify_within depth (seen || is_provider_name e.name) causes in
    if is_budget_code e.code then budget_exhausted else if is_validation e then validation else rest

-- `classifyRunFailure`
unfoldable pub classify_run_failure : List ErrorNode → RunFailureReason
unfolding classify_within
classify_run_failure chain = classify_within max_depth false chain

-- ===== src/Worker/Errors/Wrapping.antt =====
-- errors.ts: an error and the same error under a wrapper.
use atoms_platform.Common.{
  ℕ, zero, suc, ◌≤◌, ◌≡◌, refl, sym, ◌∙◌, Bool, false, ◌||◌, List, [], ◌∷◌, length, arith,
}
use atoms_platform.Worker.Errors.{
  ErrorNode, classify_within, classify_run_failure, is_budget_code, is_provider_name, is_validation,
}

-- A walk that may go deeper than the chain goes no deeper.
classify-deeper :
    (depth : ℕ) (seen : Bool) (chain : List ErrorNode)
    → length chain ≤ depth
    → classify_within (suc depth) seen chain ≡ classify_within depth seen chain
unfolding classify_within
classify-deeper zero seen [] le = refl
classify-deeper (suc depth) seen [] le = refl
classify-deeper zero seen (e ∷ causes) le = absurd (omega arith)
classify-deeper (suc depth) seen (e ∷ causes) le =
    let rest = classify-deeper depth (seen || is_provider_name e.name) causes (omega arith) in
    rw rest refl

classify-cons :
    (depth : ℕ) (e : ErrorNode) (chain : List ErrorNode)
    → is_budget_code e.code ≡ false
    → is_validation e ≡ false
    → is_provider_name e.name ≡ false
    → classify_within (suc depth) false (e ∷ chain) ≡ classify_within depth false chain
unfolding classify_within
classify-cons depth e chain budget valid named = rw (budget, valid, named) refl

-- An error that wraps another, and is itself no budget, validation or provider error, does not
-- change what the run's failure is put down to, if the wrapped chain has nine errors at most.
pub classify_wrapped :
    (e : ErrorNode) (chain : List ErrorNode)
    → is_budget_code e.code ≡ false
    → is_validation e ≡ false
    → is_provider_name e.name ≡ false
    → length chain ≤ 9
    → classify_run_failure (e ∷ chain) ≡ classify_run_failure chain
unfolding classify_run_failure
classify_wrapped e chain budget valid named le =
    classify-cons 9 e chain budget valid named ∙ sym (classify-deeper 9 false chain le)

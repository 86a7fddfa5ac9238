-- ===== src/Budget/Pricing.antt =====
-- Costs, estimates and what is given back. Rates, in USD per million tokens, and the safety multiplier
-- are doubles, computed with as the code does.
use atoms_platform.Budget.Doubles.{Double, of_nat, times, plus, rounded, ceiling, is_below_one}
use atoms_platform.Common.{
  ℕ, zero, suc, ◌+◌, ◌-◌, ◌*◌, ◌/◌, min, max, String, ◌&&◌, Option, none, some, List, [], ◌∷◌,
  if◌then◌else◌, str_eq,
}

pub record ModelPricing : Type 0 where
  pub input_rate : Double
  pub cached_input_rate : Option Double
  pub output_rate : Double

abbrev pub cached_rate : ModelPricing → Double
cached_rate p = elim p.cached_input_rate [ none ↦ p.input_rate | some r ↦ r ]

-- `calculateCostUsdMicros`
unfoldable pub calculate_cost_usd_micros :
    (input_tokens cached_input_tokens output_tokens : ℕ) → ModelPricing → ℕ
calculate_cost_usd_micros input cached output p =
    let safe = min cached input in
    rounded (
      plus (plus (times (of_nat (input - safe)) p.input_rate) (times (of_nat safe) (cached_rate p)))
        (times (of_nat output) p.output_rate))

-- `SETTLED_COST_MARGIN` is five quarters.
abbrev pub settled : ℕ → ℕ
settled actual = (actual * 5 + 3) / 4

-- `reservationToRelease`; a negative cost counts as none.
unfoldable pub reservation_to_release : (reservation : ℕ) → (actual : Option ℕ) → ℕ
reservation_to_release reservation none = 0
reservation_to_release reservation (some actual) = reservation - settled actual

pub data BudgetError : Type 0 where
  provider_budget_disabled provider_budget_context_missing output_limit_required : BudgetError
  model_not_budgeted references_unsupported reference_invalid : BudgetError
  workspace_budget_exceeded provider_budget_exceeded : (reservation remaining : ℕ) → BudgetError
  range_error store_error : BudgetError

pub data Result (A : Type 0) : Type 0 where
  ok : A → Result A
  failed : BudgetError → Result A

infixl 5 ◌>>=◌
abbrev pub ◌>>=◌ : {A B : Type 0} → Result A → (A → Result B) → Result B
◌>>=◌ (ok a) f = f a
◌>>=◌ (failed e) f = failed e

abbrev clamp : ℕ → Option ℕ → Result ℕ
clamp requested none = failed model_not_budgeted
clamp requested (some limit) = ok (min requested limit)

-- `resolveMaxOutputTokens`, with the model's row of `outputTokenLimits`.
unfoldable pub resolve_max_output_tokens : (requested limit : Option ℕ) → Result ℕ
resolve_max_output_tokens none limit = failed output_limit_required
resolve_max_output_tokens (some zero) limit = failed output_limit_required
resolve_max_output_tokens (some (suc n)) limit = clamp (suc n) limit

pub record Reference : Type 0 where
  pub kind : String
  pub mime_type : String
  pub data_base64 : String

pub record ModelRequest : Type 0 where
  pub input : String
  pub instructions : Option String
  pub references : List Reference
  pub max_output_tokens : Option ℕ
  pub policy : String
  pub run_id : Option ℕ

-- `Buffer`: the bytes of a text in UTF-8, and the length that canonical base64 of UTF-8 text
-- decodes to.
pub record Buffers : Type 0 where
  pub byte_length : String → ℕ
  pub decoded_length : String → Option ℕ

abbrev reference_bytes : Buffers → Reference → Result ℕ
reference_bytes b r =
    if str_eq r.kind "file" && str_eq r.mime_type "text/plain"
    then elim (b.decoded_length r.data_base64) [ none ↦ failed reference_invalid | some n ↦ ok n ]
    else failed references_unsupported

-- `boundedTextReferenceBytes`
unfoldable pub bounded_text_reference_bytes : Buffers → List Reference → Result ℕ
bounded_text_reference_bytes b [] = ok 0
bounded_text_reference_bytes b (r ∷ rs) =
    reference_bytes b r >>= λ n. bounded_text_reference_bytes b rs >>= λ rest. ok (n + rest)

-- `REQUEST_OVERHEAD_TOKEN_RESERVE`
abbrev pub request_overhead_token_reserve : ℕ
request_overhead_token_reserve = 2048

abbrev bytes_of : Buffers → Option String → ℕ
bytes_of b none = b.byte_length ""
bytes_of b (some s) = b.byte_length s

-- The upper bound of the input's tokens.
abbrev pub input_bound : Buffers → ModelRequest → (reference_bytes : ℕ) → ℕ
input_bound b r n =
    b.byte_length r.input + bytes_of b r.instructions + n + request_overhead_token_reserve

-- `Math.max(1, Math.ceil(raw * safetyMultiplier))`
abbrev pub with_safety : (raw : ℕ) (multiplier : Double) → ℕ
with_safety raw multiplier = max 1 (ceiling (times (of_nat raw) multiplier))

unfoldable pub priced :
    Buffers
    → ModelRequest
    → (max_output : ℕ) → Option ModelPricing
    → (multiplier : Double) → Result ℕ
unfolding bounded_text_reference_bytes calculate_cost_usd_micros
priced b r max_output none multiplier = failed model_not_budgeted
priced b r max_output (some p) multiplier =
    if is_below_one multiplier
    then failed range_error
    else bounded_text_reference_bytes b r.references >>= λ n.
        ok (with_safety (calculate_cost_usd_micros (input_bound b r n) 0 max_output p) multiplier)

-- `estimateTextRequestReservationUsdMicros`, with the model's rows of the two tables.
unfoldable pub estimate :
    Buffers
    → ModelRequest
    → Option ModelPricing
    → (limit : Option ℕ) → (multiplier : Double) → Result ℕ
unfolding priced resolve_max_output_tokens
estimate b r pricing limit multiplier =
    resolve_max_output_tokens r.max_output_tokens limit >>= λ n. priced b r n pricing multiplier

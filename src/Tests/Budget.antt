-- ===== src/Tests/Budget.antt =====
-- Budgets: the theorems on estimates, reservations and settlements at work.
use atoms_platform.Common.{true, ◌≡◌, refl, none, some, [], ◌∷◌, arith}
use atoms_platform.Common.Table.{lookup, modify}
use atoms_platform.Budget.Pricing.{
  ModelPricing, Buffers, ModelRequest, ok, calculate_cost_usd_micros, resolve_max_output_tokens,
  bounded_text_reference_bytes, priced, estimate,
}
use atoms_platform.Budget.Doubles.{bit_length}
use atoms_platform.Budget.Ledger.{
  BudgetRow, Ledger, Clock, accepted, ReserveInput, reserve, reserve_row, reserve_capped,
}
use atoms_platform.Budget.Ledger.{reserve_in_workspace, charge_window, find_window, change_window}
use atoms_platform.Budget.Ledger.Windows.{Capped, reserve-Capped}
use atoms_platform.Budget.Gateway.{ReservedCall, Writes, settle_call}
use atoms_platform.Budget.Gateway.Settlement.{Settled, settle_call_row}

abbrev buffers : Buffers
buffers = record { byte_length = λ s. 100; decoded_length = λ s. none }

abbrev question : ModelRequest
question = record {
  input = "Plan a shop";
  instructions = none;
  references = [];
  max_output_tokens = some 1000;
  policy = "fast";
  run_id = some 1;
}

-- 0.15 and 0.6 USD per million tokens.
abbrev flash : ModelPricing
flash = record {
  input_rate = record { numerator = 5404319552844595; halvings = 55 };
  cached_input_rate = none;
  output_rate = record { numerator = 5404319552844595; halvings = 53 };
}

-- 2,248 tokens in and 1,000 out cost 937 micro-USD, and half as much again is reserved.
question-estimate :
    estimate buffers question (some flash) (some 16384) (record { numerator = 3; halvings = 1 })
    ≡ ok 1406
unfolding estimate priced resolve_max_output_tokens bounded_text_reference_bytes
    calculate_cost_usd_micros bit_length
question-estimate = refl

-- The products and their sum are rounded, so the same tokens can cost a micro-USD more when a part of
-- them came from the cache, at the same rate.
cost_uncached : calculate_cost_usd_micros 51034 0 454 flash ≡ 7927
unfolding calculate_cost_usd_micros bit_length
cost_uncached = refl

cost_cached : calculate_cost_usd_micros 51034 42937 454 flash ≡ 7928
unfolding calculate_cost_usd_micros bit_length
cost_cached = refl

abbrev clock : Clock
clock = record { workspace_of = λ run. some 5; today = 100 }

abbrev ask : ReserveInput
ask = record { run_id = 1; reservation = 1406; total_budget = 2000; workspace_cap = none }

abbrev fresh : Ledger
fresh = record { budgets = []; windows = [] }

abbrev row : BudgetRow
row = record { total = 2000; reserved = 1406; actual = 0 }

abbrev charged : Ledger
charged = record { budgets = (1, row) ∷ []; windows = [] }

abbrev call : ReservedCall
call = record { run_id = 1; request = question; reservation = 1406; window_date = none }

abbrev both : Writes
both = record { records = true; releases = true }

settle_call_row_example :
    (b : BudgetRow) × (lookup 1 (settle_call both clock call (some 600) charged).budgets ≡ some b)
    × Settled both 1406 600 row b
settle_call_row_example = settle_call_row clock call 600 charged both row refl (omega arith)

abbrev capped_ask : ReserveInput
capped_ask = record ask { workspace_cap = some 3000 }

abbrev capped_ledger : Ledger
capped_ledger = record {
  budgets = (1, row) ∷ [];
  windows = record { workspace = 5; date = 100; reserved = 1406 } ∷ [];
}

capped_accepted : reserve clock capped_ask fresh ≡ ok (accepted 594 (some 100), capped_ledger)
unfolding reserve reserve_row reserve_capped reserve_in_workspace charge_window find_window
    change_window modify
capped_accepted = refl

reserve-Capped_example : Capped 3000 5 100 capped_ask fresh (accepted 594 (some 100)) capped_ledger
reserve-Capped_example =
    reserve-Capped clock capped_ask fresh capped_ledger (accepted 594 (some 100)) 3000 5 refl refl
      capped_accepted

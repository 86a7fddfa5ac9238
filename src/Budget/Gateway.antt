-- ===== src/Budget/Gateway.antt =====
-- `BudgetedModelGateway`: a call is reserved, made, and settled.
pub mod Settlement
use atoms_platform.Common.{
  ℕ, zero, suc, ◌-◌, String, Bool, true, false, Option, none, some, ◌==◌, if◌then◌else◌,
}
use atoms_platform.Budget.Doubles.{Double}
use atoms_platform.Budget.Pricing.{
  ModelPricing, Buffers, ModelRequest, Result, ok, failed, ◌>>=◌, provider_budget_disabled,
  provider_budget_context_missing, workspace_budget_exceeded, provider_budget_exceeded,
  resolve_max_output_tokens, estimate, reservation_to_release,
}
use atoms_platform.Budget.Ledger.{
  Ledger, Clock, run_scope, workspace_scope, Reservation, accepted, refused, ReserveInput, reserve,
  release, record_actual,
}

-- The options, with the tables as functions of a model's name, and the model of a policy.
pub record GatewayOptions : Type 0 where
  pub total_budget : ℕ
  pub workspace_cap : Option ℕ
  pub pricing : String → Option ModelPricing
  pub output_token_limits : String → Option ℕ
  pub safety_multiplier : Double
  pub resolve_model : String → String
  pub buffers : Buffers

pub record ReservedCall : Type 0 where
  pub run_id : ℕ
  pub request : ModelRequest
  pub reservation : ℕ
  pub window_date : Option ℕ

unfoldable pub accept_call :
    (run : ℕ)
    → ModelRequest
    → (reservation : ℕ) → Reservation × Ledger
    → Result ReservedCall × Ledger
accept_call run r n (accepted remaining window, l) =
    (ok (record { run_id = run; request = r; reservation = n; window_date = window }), l)
accept_call run r n (refused remaining workspace_scope, l) =
    (failed (workspace_budget_exceeded n remaining), l)
accept_call run r n (refused remaining run_scope, l) =
    (failed (provider_budget_exceeded n remaining), l)

abbrev pub accept_result :
    (run : ℕ)
    → ModelRequest
    → (reservation : ℕ) → Ledger
    → Result (Reservation × Ledger)
    → Result ReservedCall × Ledger
accept_result run r n l (ok answer) = accept_call run r n answer
accept_result run r n l (failed e) = (failed e, l)

abbrev pub reserve_estimated :
    GatewayOptions
    → Clock
    → (run : ℕ) → ModelRequest
    → Result ℕ
    → Ledger
    → Result ReservedCall × Ledger
reserve_estimated o c run r (failed e) l = (failed e, l)
reserve_estimated o c run r (ok n) l = accept_result run r n l (
    reserve c
      (record {
        run_id = run;
        reservation = n;
        total_budget = o.total_budget;
        workspace_cap = o.workspace_cap;
      })
      l)

abbrev pub clamp_request : ℕ → ModelRequest → ModelRequest
clamp_request n r = record r { max_output_tokens = some n }

unfoldable pub reserve_clamped :
    GatewayOptions
    → Clock
    → (run : ℕ) → ModelRequest
    → Result ℕ
    → Ledger
    → Result ReservedCall × Ledger
unfolding accept_call reserve estimate
reserve_clamped o c run r (failed e) l = (failed e, l)
reserve_clamped o c run r (ok n) l =
    let model = o.resolve_model r.policy in
    reserve_estimated o c run (clamp_request n r)
      (estimate o.buffers (clamp_request n r) (o.pricing model) (o.output_token_limits model)
        o.safety_multiplier)
      l

abbrev pub reserve_for :
    GatewayOptions → Clock → Option ℕ → ModelRequest → Ledger → Result ReservedCall × Ledger
reserve_for o c none r l = (failed provider_budget_context_missing, l)
reserve_for o c (some run) r l =
    reserve_clamped o c run r
      (resolve_max_output_tokens r.max_output_tokens
        (o.output_token_limits (o.resolve_model r.policy)))
      l

-- `#reserve`
unfoldable pub reserve_call :
    GatewayOptions → Clock → ModelRequest → Ledger → Result ReservedCall × Ledger
unfolding reserve_clamped
reserve_call o c r l =
    if o.total_budget == 0
    then (failed provider_budget_disabled, l)
    else reserve_for o c r.run_id r l

abbrev kept : Ledger → Result Ledger → Ledger
kept l (ok l') = l'
kept l (failed e) = l

-- Whether the store carries the two writes of a settlement out; a write that it throws at is lost.
pub record Writes : Type 0 where
  pub records : Bool
  pub releases : Bool

-- The `release` of the amount, where there is one.
abbrev pub release_left : Writes → Clock → ReservedCall → (amount : ℕ) → Ledger → Ledger
unfolding release
release_left w c call amount l =
    if amount == 0
    then l
    else if w.releases
    then kept l (release c call.run_id amount call.window_date l)
    else l

-- `#recordActual`, whose `catch` drops the error of either write.
unfoldable pub settle_call : Writes → Clock → ReservedCall → (cost : Option ℕ) → Ledger → Ledger
unfolding reservation_to_release
settle_call w c call none l = l
settle_call w c call (some actual) l =
    if w.records
    then release_left w c call (reservation_to_release call.reservation (some actual))
        (record_actual call.run_id actual l)
    else l

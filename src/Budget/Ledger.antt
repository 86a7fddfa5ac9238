-- ===== src/Budget/Ledger.antt =====
-- `PostgresRunProviderBudgetStore`: the ledgers of runs and of workspaces' days.
pub mod Ceilings
pub mod Windows
use atoms_platform.Common.{
  ℕ, zero, suc, ◌+◌, ◌-◌, min, Bool, true, false, ◌&&◌, ◌||◌, Option, none, some, List, [], ◌∷◌,
  ◌==◌, ltb, if◌then◌else◌, is_some, is_none,
}
use atoms_platform.Common.Table.{Table, lookup, modify}
use atoms_platform.Budget.Pricing.{BudgetError, range_error, store_error, Result, ok, failed}

pub record BudgetRow : Type 0 where
  pub total : ℕ
  pub reserved : ℕ
  pub actual : ℕ

pub record Window : Type 0 where
  pub workspace : ℕ
  pub date : ℕ
  pub reserved : ℕ

pub record Ledger : Type 0 where
  pub budgets : Table BudgetRow
  pub windows : List Window

pub data Scope : Type 0 where
  run_scope workspace_scope : Scope

pub data Reservation : Type 0 where
  accepted : (remaining : ℕ) → (window_date : Option ℕ) → Reservation
  refused : (remaining : ℕ) → Scope → Reservation

pub record ReserveInput : Type 0 where
  pub run_id : ℕ
  pub reservation : ℕ
  pub total_budget : ℕ
  pub workspace_cap : Option ℕ

-- The workspace of a run, and the UTC day.
pub record Clock : Type 0 where
  pub workspace_of : ℕ → Option ℕ
  pub today : ℕ

-- `INSERT … ON CONFLICT (run_id) DO NOTHING`
abbrev pub ensure_budget : (run total : ℕ) → Table BudgetRow → Table BudgetRow
ensure_budget run total t =
    if is_some (lookup run t)
    then t
    else (run, record { total = total; reserved = 0; actual = 0 }) ∷ t

abbrev pub is_window : (workspace date : ℕ) → Window → Bool
is_window workspace date w = w.workspace == workspace && w.date == date

unfoldable pub find_window : (workspace date : ℕ) → List Window → Option Window
find_window workspace date [] = none
find_window workspace date (w ∷ ws) =
    if is_window workspace date w then some w else find_window workspace date ws

-- `INSERT … ON CONFLICT (workspace_id, window_date) DO NOTHING`
abbrev pub ensure_window : (workspace date : ℕ) → List Window → List Window
ensure_window workspace date ws =
    if is_some (find_window workspace date ws)
    then ws
    else record { workspace = workspace; date = date; reserved = 0 } ∷ ws

-- `UPDATE` of a window's reserved amount.
unfoldable pub change_window : (workspace date : ℕ) → (ℕ → ℕ) → List Window → List Window
change_window workspace date f [] = []
change_window workspace date f (w ∷ ws) =
    (if is_window workspace date w then record w { reserved = f w.reserved } else w)
    ∷ change_window workspace date f ws

abbrev pub charge : ℕ → BudgetRow → BudgetRow
charge n b = record b { reserved = b.reserved + n }

-- The last statement of `reserve`.
abbrev pub charge_run :
    ReserveInput → (remaining : ℕ) → Option ℕ → Ledger → Result (Reservation × Ledger)
charge_run i remaining window l = ok (
  accepted (remaining - i.reservation) window,
  record l { budgets = modify i.run_id (charge i.reservation) l.budgets },
)

unfoldable pub charge_window :
    ReserveInput
    → (ceiling remaining workspace today : ℕ) → Ledger
    → Option Window
    → Result (Reservation × Ledger)
unfolding change_window
charge_window i ceiling remaining workspace today l none = failed store_error
charge_window i ceiling remaining workspace today l (some w) =
    if ltb (ceiling - w.reserved) i.reservation
    then ok (refused (ceiling - w.reserved) workspace_scope, l)
    else charge_run i remaining (some today)
        (record l { windows = change_window workspace today (λ n. n + i.reservation) l.windows })

abbrev with_window : (workspace today : ℕ) → Ledger → Ledger
with_window workspace today l = record l { windows = ensure_window workspace today l.windows }

-- A run without a row has no workspace and so no window.
unfoldable pub reserve_in_workspace :
    Clock
    → ReserveInput
    → (ceiling remaining : ℕ) → Option ℕ
    → Ledger
    → Result (Reservation × Ledger)
unfolding charge_window find_window
reserve_in_workspace c i ceiling remaining none l = failed store_error
reserve_in_workspace c i ceiling remaining (some workspace) l =
    charge_window i ceiling remaining workspace c.today (with_window workspace c.today l)
      (find_window workspace c.today (ensure_window workspace c.today l.windows))

unfoldable pub reserve_capped :
    Clock → ReserveInput → (remaining : ℕ) → Option ℕ → Ledger → Result (Reservation × Ledger)
unfolding reserve_in_workspace
reserve_capped c i remaining none l = charge_run i remaining none l
reserve_capped c i remaining (some ceiling) l =
    reserve_in_workspace c i ceiling remaining (c.workspace_of i.run_id) l

-- `effectiveTotalUsdMicros - reservedUsdMicros`, not below zero.
abbrev pub remaining_of : ReserveInput → BudgetRow → ℕ
remaining_of i b = min b.total i.total_budget - b.reserved

unfoldable pub reserve_row :
    Clock → ReserveInput → Option BudgetRow → Ledger → Result (Reservation × Ledger)
unfolding reserve_capped
reserve_row c i none l = failed store_error
reserve_row c i (some b) l =
    if ltb (remaining_of i b) i.reservation
    then ok (refused (remaining_of i b) run_scope, l)
    else reserve_capped c i (remaining_of i b) i.workspace_cap l

abbrev pub is_zero_cap : Option ℕ → Bool
is_zero_cap none = false
is_zero_cap (some n) = n == 0

-- `reserve`
unfoldable pub reserve : Clock → ReserveInput → Ledger → Result (Reservation × Ledger)
unfolding reserve_row
reserve c i l =
    if i.reservation == 0 || i.total_budget == 0 || is_zero_cap i.workspace_cap
    then failed range_error
    else let budgets = ensure_budget i.run_id i.total_budget l.budgets in
      reserve_row c i (lookup i.run_id budgets) (record l { budgets = budgets })

abbrev pub give_back : ℕ → BudgetRow → BudgetRow
give_back n b = record b { reserved = b.reserved - n }

unfoldable pub release_window : Option ℕ → Option ℕ → ℕ → List Window → List Window
unfolding change_window
release_window (some workspace) (some date) n ws = change_window workspace date (λ r. r - n) ws
release_window _ _ n ws = ws

-- `release`
unfoldable pub release :
    Clock → (run amount : ℕ) → (window_date : Option ℕ) → Ledger → Result Ledger
unfolding release_window
release c run amount window l =
    if amount == 0
    then failed range_error
    else ok (record l {
      budgets = modify run (give_back amount) l.budgets;
      windows = release_window (c.workspace_of run) window amount l.windows;
    })

abbrev pub add_actual : ℕ → BudgetRow → BudgetRow
add_actual n b = record b { actual = b.actual + n }

-- `recordActual`
abbrev pub record_actual : (run actual : ℕ) → Ledger → Ledger
record_actual run actual l = record l { budgets = modify run (add_actual actual) l.budgets }

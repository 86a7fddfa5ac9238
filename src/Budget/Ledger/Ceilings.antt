-- ===== src/Budget/Ledger/Ceilings.antt =====
-- `reserve` and the ceilings of runs.
use mathlib.Core.Option
use atoms_platform.Common.{ℕ, ◌+◌, ◌≤◌, ◌<◌, ◌≡◌, min, Option, none, some}
use atoms_platform.Common.Table.{Table, lookup}
use atoms_platform.Budget.Pricing.{Result, ok, failed}
use atoms_platform.Budget.Ledger.{BudgetRow, Ledger, Reservation, accepted, refused, ReserveInput}

abbrev pub Within : Option BudgetRow → Type 0
Within none = Unit
Within (some b) = b.reserved ≤ b.total

-- Every run's reserved amount keeps to its ceiling.
abbrev pub IsWithin : Ledger → Type 0
IsWithin l = (run : ℕ) → Within (lookup run l.budgets)

abbrev pub reserved_of : Option BudgetRow → ℕ
reserved_of none = 0
reserved_of (some b) = b.reserved

-- What an answer says of the ledger before and after.
abbrev pub Charged : ReserveInput → Ledger → Reservation → Ledger → Type 0
Charged i l (accepted remaining window) l' =
    (b : BudgetRow) × (lookup i.run_id l'.budgets ≡ some b)
    × (b.reserved ≡ reserved_of (lookup i.run_id l.budgets) + i.reservation)
    × (b.reserved + remaining ≡ min b.total i.total_budget)
Charged i l (refused remaining scope) l' =
    (run : ℕ) → reserved_of (lookup run l'.budgets) ≡ reserved_of (lookup run l.budgets)

abbrev Holds : ReserveInput → Ledger → Result (Reservation × Ledger) → Type 0
Holds i l (ok (answer, l')) = (IsWithin l → IsWithin l') × Charged i l answer l'
Holds i l (failed e) = Unit

module _ (i : ReserveInput) (l m : Ledger) where
  -- The ledger once both rows are there.
  record Ready (b : BudgetRow) : Type 0 where
    found : lookup i.run_id m.budgets ≡ some b
    same : (run : ℕ) → reserved_of (lookup run m.budgets) ≡ reserved_of (lookup run l.budgets)
    within : IsWithin l → IsWithin m
    some_reservation : 0 < i.reservation

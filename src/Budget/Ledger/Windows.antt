-- ===== src/Budget/Ledger/Windows.antt =====
-- `reserve` and the ceiling of a workspace's day.

use atoms_platform.Common.{
  ℕ, ◌+◌, ◌-◌, ◌≤◌, ◌<◌, ◌≡◌, refl, ap, ◌∙◌, subst, ◌||◌, Option, none, some, List, [], ◌∷◌, ◌==◌,
  ==_iff, ltb, arith, inl, inr, Bool-cases, Option-cases,
}
use atoms_platform.Budget.Pricing.{Result, ok, failed}
use atoms_platform.Budget.Ledger.{
  BudgetRow, Window, Ledger, Clock, Reservation, accepted, refused, ReserveInput, ensure_budget,
  find_window, ensure_window, change_window, charge_window, with_window, reserve_in_workspace,
  reserve_capped, remaining_of, reserve_row, is_zero_cap, reserve,
}

abbrev pub window_reserved : Option Window → ℕ
window_reserved none = 0
window_reserved (some w) = w.reserved

-- The amount of the workspace's day after an accepted reservation.
abbrev pub Capped :
    (ceiling workspace today : ℕ) → ReserveInput → Ledger → Reservation → Ledger → Type 0
Capped ceiling workspace today i l (accepted remaining window) l' =
    (window ≡ some today)
    × (window_reserved (find_window workspace today l'.windows)
        ≡ window_reserved (find_window workspace today l.windows) + i.reservation)
    × (window_reserved (find_window workspace today l'.windows) ≤ ceiling)
Capped ceiling workspace today i l (refused remaining scope) l' =
    window_reserved (find_window workspace today l'.windows)
    ≡ window_reserved (find_window workspace today l.windows)

abbrev Caps :
    (ceiling workspace today : ℕ) → ReserveInput → Ledger → Result (Reservation × Ledger) → Type 0
Caps ceiling workspace today i l (ok (answer, l')) = Capped ceiling workspace today i l answer l'
Caps ceiling workspace today i l (failed e) = Unit

find-change :
    (workspace today : ℕ) (f : ℕ → ℕ) (ws : List Window) (w : Window)
    → find_window workspace today ws ≡ some w
    → window_reserved (find_window workspace today (change_window workspace today f ws))
      ≡ f w.reserved
unfolding find_window change_window
find-change workspace today f [] w e = absurd (cc e)
find-change workspace today f (v ∷ vs) w e = ground (arith, find-change workspace today f vs w)

find-ensure :
    (workspace today : ℕ) (ws : List Window)
    → window_reserved (find_window workspace today (ensure_window workspace today ws))
      ≡ window_reserved (find_window workspace today ws)
unfolding find_window
find-ensure workspace today ws = elim (Option-cases (find_window workspace today ws)) [
  | inl fresh ↦ rw (fresh, (==_iff workspace workspace).1 refl, (==_iff today today).1 refl) refl
  | inr (w, there) ↦ rw (there, there) refl
]

module _ (i : ReserveInput) (l : Ledger) (ceiling workspace today : ℕ) where
  charge_window-Caps :
      (remaining : ℕ) (m : Ledger) (o : Option Window)
      → find_window workspace today m.windows ≡ o
      → window_reserved o ≡ window_reserved (find_window workspace today l.windows)
      → 0 < i.reservation
      → Caps ceiling workspace today i l (charge_window i ceiling remaining workspace today m o)
  unfolding charge_window
  charge_window-Caps remaining m none found same pos = tt
  charge_window-Caps remaining m (some w) found same pos =
      elim (Bool-cases (ltb (ceiling - w.reserved) i.reservation)) [
        | inl short ↦ rw short (ap window_reserved found ∙ same)
        | inr fits ↦
            let charged = find-change workspace today (λ n. n + i.reservation) m.windows w found in
            rw fits
              (refl, charged ∙ ap (λ n. n + i.reservation) same, ground (arith, charged, fits, pos))
      ]

  in_workspace-Caps :
      (c : Clock) (remaining : ℕ) (m : Ledger)
      → c.today ≡ today
      → m.windows ≡ l.windows
      → 0 < i.reservation
      → Caps ceiling workspace today i l
          (reserve_in_workspace c i ceiling remaining (some workspace) m)
  unfolding reserve_in_workspace
  in_workspace-Caps c remaining m now same pos =
      rw (now, same)
        (charge_window-Caps remaining
          (with_window workspace today (record m { windows = l.windows })) _ refl
          (find-ensure workspace today l.windows) pos)

  row-Caps :
      (c : Clock) (m : Ledger) (o : Option BudgetRow)
      → c.today ≡ today
      → m.windows ≡ l.windows
      → c.workspace_of i.run_id ≡ some workspace
      → i.workspace_cap ≡ some ceiling
      → 0 < i.reservation
      → Caps ceiling workspace today i l (reserve_row c i o m)
  unfolding reserve_row reserve_capped
  row-Caps c m none now same in_workspace capped pos = tt
  row-Caps c m (some b) now same in_workspace capped pos =
      elim (Bool-cases (ltb (remaining_of i b) i.reservation)) [
        | inl short ↦ rw short (ap (λ ws. window_reserved (find_window workspace today ws)) same)
        | inr fits ↦
            rw (fits, capped, in_workspace) (in_workspace-Caps c (remaining_of i b) m now same pos)
      ]

-- With a ceiling for the workspace's day, an accepted reservation is charged in full to the window
-- of the run's workspace and the current day, whose reserved amount then keeps to the ceiling; a
-- refused one leaves that amount as it was.
pub reserve-Capped :
    (c : Clock) (i : ReserveInput) (l l' : Ledger) (answer : Reservation) (ceiling workspace : ℕ)
    → c.workspace_of i.run_id ≡ some workspace
    → i.workspace_cap ≡ some ceiling
    → reserve c i l ≡ ok (answer, l')
    → Capped ceiling workspace c.today i l answer l'
unfolding reserve
reserve-Capped c i l l' answer ceiling workspace in_workspace capped e =
    subst (Caps ceiling workspace c.today i l) e
      (elim (Bool-cases
        (i.reservation == 0 || i.total_budget == 0 || is_zero_cap i.workspace_cap)) [
          | inl invalid ↦ rw invalid tt
          | inr valid ↦ rw valid (
              row-Caps i l ceiling workspace c.today c
                (record l { budgets = ensure_budget i.run_id i.total_budget l.budgets }) _ refl refl
                in_workspace capped (ground arith))
        ])

-- ===== src/Budget/Gateway/Settlement.antt =====
-- The ledger around `#recordActual` of `BudgetedModelGateway`.

use atoms_platform.Common.{
  true, ℕ, ◌+◌, ◌-◌, ◌≤◌, ◌≡◌, refl, ◌∙◌, min, some, ◌==◌, ==_iff, arith, inl, inr, Bool-cases,
}
use atoms_platform.Common.Table.{Table, lookup, modify, lookup-modify}
use atoms_platform.Budget.Pricing.{settled, reservation_to_release}
use atoms_platform.Budget.Ledger.{
  BudgetRow, Ledger, Clock, give_back, release, add_actual, record_actual,
}
use atoms_platform.Budget.Gateway.{ReservedCall, Writes, release_left, settle_call}

row-modify :
    (run : ℕ) (f : BudgetRow → BudgetRow) (t : Table BudgetRow) (b : BudgetRow)
    → lookup run t ≡ some b
    → lookup run (modify run f t) ≡ some (f b)
row-modify run f t b e = lookup-modify run run f t ∙ rw ((==_iff run run).1 refl, e) refl

-- The row of a settled call: the writes that went through, and never more given back than the cost
-- with its margin leaves over.
pub record Settled (w : Writes) (reservation cost : ℕ) (b b' : BudgetRow) : Type 0 where
  pub same_total : b'.total ≡ b.total
  pub spent : w.records ≡ true → b'.actual ≡ b.actual + cost
  pub kept_enough : b.reserved + min reservation (settled cost) ≤ b'.reserved + reservation
  pub kept_exactly :
      w.records ≡ true
      → w.releases ≡ true
      → b'.reserved + reservation ≡ b.reserved + min reservation (settled cost)

module _ (c : Clock) (call : ReservedCall) (cost : ℕ) (l : Ledger) where
  abbrev SettledRow : Writes → BudgetRow → Ledger → Type 0
  SettledRow w b l' =
      (b' : BudgetRow) × (lookup call.run_id l'.budgets ≡ some b')
      × Settled w call.reservation cost b b'

  release_left-SettledRow :
      (w : Writes) (b : BudgetRow) (amount : ℕ)
      → lookup call.run_id l.budgets ≡ some b
      → call.reservation ≤ b.reserved
      → w.records ≡ true
      → amount ≡ call.reservation - settled cost
      → SettledRow w b (release_left w c call amount (record_actual call.run_id cost l))
  unfolding release
  release_left-SettledRow w b amount found le records same =
      let recorded = row-modify call.run_id (add_actual cost) l.budgets b found in
      elim (Bool-cases (amount == 0)) [
        | inl nothing ↦ rw nothing (
          add_actual cost b,
          recorded,
          record {
            same_total = refl;
            spent = λ h. refl;
            kept_enough = omega arith;
            kept_exactly = λ h k. ground (arith, nothing, same);
          },
        )
        | inr some_left ↦ elim (Bool-cases w.releases) [
          | inl goes ↦
              rw (some_left, goes)
                (
                  give_back amount (add_actual cost b),
                  row-modify call.run_id (give_back amount) _ (add_actual cost b) recorded,
                  record {
                    same_total = refl;
                    spent = λ h. refl;
                    kept_enough = omega (arith, le, same);
                    kept_exactly = λ h k. omega (arith, le, same);
                  },
                )
          | inr lost ↦
              rw (some_left, lost)
                (
                  add_actual cost b,
                  recorded,
                  record {
                    same_total = refl;
                    spent = λ h. refl;
                    kept_enough = omega arith;
                    kept_exactly = λ h k. absurd (cc k);
                  },
                )
        ]
      ]

  -- A finished call with a known cost, whichever of the two writes the store carries out: the run's
  -- total stays; if the actual cost is recorded, it is added to the run's actual spend; of the call's
  -- reservation the ledger keeps at least the cost with its margin of a quarter, or the whole
  -- reservation if that is less, and it keeps exactly that if both writes go through.
  pub settle_call_row :
      (w : Writes) (b : BudgetRow)
      → lookup call.run_id l.budgets ≡ some b
      → call.reservation ≤ b.reserved
      → SettledRow w b (settle_call w c call (some cost) l)
  unfolding settle_call reservation_to_release
  settle_call_row w b found le = elim (Bool-cases w.records) [
    | inl records ↦ rw records (
        release_left-SettledRow (record w { records = true }) b (call.reservation - settled cost)
          found le refl refl)
    | inr lost ↦ rw lost (
      b,
      found,
      record {
        same_total = refl;
        spent = λ h. absurd (cc h);
        kept_enough = omega arith;
        kept_exactly = λ h k. absurd (cc h);
      },
    )
  ]

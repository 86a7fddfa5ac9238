-- ===== src/Common/Table.antt =====
-- A database table: rows under a primary key.
use Prim.Native.Nat.{ℕ}
use mathlib.Core.Path.{◌≡◌}
use mathlib.Core.List.{List, [], ◌∷◌}
use mathlib.Core.Option
use mathlib.Core.Option.{Option, none, some}
use native.Mathlib.Omega.{arith}
use atoms_platform.Common.Tests.{◌==◌, if◌then◌else◌}

abbrev pub Table {ℓ} : Type ℓ → Type ℓ
Table V = List (ℕ × V)

module _ {ℓ} {V : Type ℓ} where
  -- `findUnique`
  abbrev pub lookup : ℕ → Table V → Option V
  lookup k [] = none
  lookup k ((j, v) ∷ t) = if k == j then some v else lookup k t

  -- `update` of the row under a key; a missing row is left missing.
  unfoldable pub modify : ℕ → (V → V) → Table V → Table V
  modify k f [] = []
  modify k f ((j, v) ∷ t) = if k == j then (j, f v) ∷ t else (j, v) ∷ modify k f t

  pub lookup-modify :
      (j k : ℕ) (f : V → V) (t : Table V)
      → lookup j (modify k f t) ≡ (if k == j then Option.map f (lookup j t) else lookup j t)
  unfolding modify
  lookup-modify j k f [] = ground arith
  lookup-modify j k f ((i, v) ∷ t) = ground (arith, lookup-modify j k f t)

-- ===== src/Budget/Doubles.antt =====
-- The binary floating point that prices are computed in: finite doubles that are not negative. Of IEEE
-- 754 it has the rounding to 53 bits, to even in a tie; amounts of money stay far from the least and
-- the greatest double.
use atoms_platform.Common.{
  ℕ, zero, suc, ◌+◌, ◌-◌, ◌*◌, ◌/◌, ◌%◌, ◌^◌, Bool, true, false, ◌==◌, ltb, if◌then◌else◌,
}

-- The numerator over a power of two.
pub record Double : Type 0 where
  pub numerator : ℕ
  pub halvings : ℕ

-- The count of binary digits, with the number itself as fuel.
unfoldable pub bit_length : (fuel n : ℕ) → ℕ
bit_length zero n = 0
bit_length (suc fuel) n = elim (n == 0) [ true ↦ 0 | false ↦ suc (bit_length fuel (n / 2)) ]

-- The nearest multiple of a unit, the even one in a tie.
abbrev pub nearest_multiple : (unit n : ℕ) → ℕ
nearest_multiple unit n =
    let quotient = n / unit in
    let double_rest = 2 * (n % unit) in
    let up = if double_rest == unit then quotient % 2 == 1 else ltb unit double_rest in
    unit * (if up then quotient + 1 else quotient)

abbrev pub to_53_bits : ℕ → ℕ
to_53_bits n = nearest_multiple (2 ^ (bit_length n n - 53)) n

abbrev pub of_nat : ℕ → Double
of_nat n = record { numerator = to_53_bits n; halvings = 0 }

abbrev pub times : Double → Double → Double
times a b = record {
  numerator = to_53_bits (a.numerator * b.numerator);
  halvings = a.halvings + b.halvings;
}

abbrev pub plus : Double → Double → Double
plus a b = record {
  numerator = to_53_bits (a.numerator * 2 ^ b.halvings + b.numerator * 2 ^ a.halvings);
  halvings = a.halvings + b.halvings;
}

-- `Math.round` and `Math.ceil`
abbrev pub rounded : Double → ℕ
rounded a = (2 * a.numerator + 2 ^ a.halvings) / 2 ^ (a.halvings + 1)

abbrev pub ceiling : Double → ℕ
ceiling a = (a.numerator + (2 ^ a.halvings - 1)) / 2 ^ a.halvings

abbrev pub is_below_one : Double → Bool
is_below_one a = ltb a.numerator (2 ^ a.halvings)

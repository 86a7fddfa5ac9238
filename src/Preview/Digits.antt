-- ===== src/Preview/Digits.antt =====
-- Numbers written in a base and read back.
use atoms_platform.Common.{
  ℕ, zero, suc, ◌+◌, ◌-◌, ◌*◌, ◌/◌, ◌%◌, ◌≤◌, ◌<◌, ◌≡◌, refl, sym, ap, ◌∙◌, Option, none, some, [],
  ◌∷◌, ◌++◌, ltb, length, arith, inl, inr, Bool-cases, Option-cases,
}
use atoms_platform.Preview.{
  Text, char_of, to_base, to_string, repeated, pad_start, base36_digit, hex_digit, add_digit, next,
  parse_from,
}

some-injective : {m n : ℕ} → some m ≡ some n → m ≡ n
some-injective e = cc

cons-eq : (x y : ℕ) (xs ys : Text) → x ≡ y → xs ≡ ys → x ∷ xs ≡ y ∷ ys
cons-eq x y xs ys e f = cc

-- What the proofs need of a base, which arithmetic decides for each number.
pub record IsBase (base : ℕ) : Type 0 where
  pub unique : (a b c d : ℕ) → c < base → d < base → a * base + c ≡ b * base + d → (a ≡ b) × (c ≡ d)
  pub positive : 1 ≤ base
  pub split : (n : ℕ) → (n / base) * base + n % base ≡ n
  pub below : (n : ℕ) → n % base < base
  pub shrinks : (n : ℕ) → base ≤ n → n / base < n

next-next :
    (f h g : ℕ → Option ℕ) (o : Option ℕ)
    → ((a : ℕ) → h a ≡ next g (f a))
    → next h o ≡ next g (next f o)
next-next f h g none e = refl
next-next f h g (some a) e = e a

-- A reading of digits that undoes their writing, below the base.
module _ (digit : ℕ → Option ℕ) (base : ℕ) (fits : IsBase base)
    (reads : (d : ℕ) → d < base → digit (char_of d) ≡ some d) where
  parse_from-append :
      (acc : ℕ) (xs ys : Text)
      → parse_from digit base acc (xs ++ ys)
        ≡ next (λ a. parse_from digit base a ys) (parse_from digit base acc xs)
  unfolding parse_from
  parse_from-append acc [] ys = refl
  parse_from-append acc (c ∷ cs) ys =
      next-next (λ a. parse_from digit base a cs) (λ a. parse_from digit base a (cs ++ ys))
        (λ a. parse_from digit base a ys) (add_digit base acc (digit c))
        (λ a. parse_from-append a cs ys)

  one_digit :
      (acc d : ℕ) → d < base → parse_from digit base acc (char_of d ∷ []) ≡ some (acc * base + d)
  unfolding parse_from
  one_digit acc d lt = rw (reads d lt) refl

  no_more : (n : ℕ) → 0 * base + n ≡ n
  no_more n = omega arith

  pub parse_from-to_base :
      (fuel n : ℕ) → n ≤ fuel → parse_from digit base 0 (to_base fuel base n) ≡ some n
  unfolding to_base
  parse_from-to_base zero n le =
      one_digit 0 n (omega (arith, le, fits.positive)) ∙ ap some (no_more n)
  parse_from-to_base (suc fuel) n le = elim (Bool-cases (ltb n base)) [
    | inl small ↦ rw (small, to_base) (one_digit 0 n (ground (arith, small)) ∙ ap some (no_more n))
    | inr large ↦
        let high =
          parse_from-to_base fuel (n / base)
            (omega (arith, le, fits.shrinks n (ground (arith, large)))) in
        rw (large, to_base)
          (parse_from-append 0 (to_base fuel base (n / base)) _
            ∙ ap (next (λ a. parse_from digit base a (char_of (n % base) ∷ []))) high
            ∙ one_digit (n / base) (n % base) (fits.below n)
            ∙ ap some (fits.split n))
  ]

  parse_from-zeros :
      (n : ℕ) (t : Text) → parse_from digit base 0 (repeated n 48 ++ t) ≡ parse_from digit base 0 t
  unfolding parse_from
  parse_from-zeros zero t = refl
  parse_from-zeros (suc n) t =
      rw (reads 0 (omega (arith, fits.positive)))
        (ap (λ a. parse_from digit base a (repeated n 48 ++ t)) (no_more 0) ∙ parse_from-zeros n t)

  -- A number that is written and padded is read back.
  pub parse_from-pad_start :
      (width n : ℕ) → parse_from digit base 0 (pad_start width (to_string base n)) ≡ some n
  parse_from-pad_start width n =
      parse_from-zeros (width - length (to_base n base n)) (to_base n base n)
      ∙ parse_from-to_base n n (omega arith)

  digit_read :
      (a v c : ℕ) (cs : Text)
      → parse_from digit base a (c ∷ cs) ≡ some v
      → (d : ℕ) × (digit c ≡ some d) × (parse_from digit base (a * base + d) cs ≡ some v)
  unfolding parse_from
  digit_read a v c cs e = elim (Option-cases (digit c)) [
    | inl bad ↦
        absurd
          (cc (sym (ap (λ o. next (λ b. parse_from digit base b cs) (add_digit base a o)) bad) ∙ e))
    | inr (d, good) ↦ (
      d,
      good,
      sym (ap (λ o. next (λ b. parse_from digit base b cs) (add_digit base a o)) good) ∙ e,
    )
  ]

  -- Two texts of digits of the same length that read as the same number are the same.
  module _ (below_base : (c d : ℕ) → digit c ≡ some d → d < base)
      (same_char : (c e d : ℕ) → digit c ≡ some d → digit e ≡ some d → c ≡ e) where
    pub parse_from-injective :
        (a b v : ℕ) (xs ys : Text)
        → length xs ≡ length ys
        → parse_from digit base a xs ≡ some v
        → parse_from digit base b ys ≡ some v
        → (a ≡ b) × (xs ≡ ys)
    unfolding parse_from
    parse_from-injective a b v [] [] l e f = (some-injective (e ∙ sym f), refl)
    parse_from-injective a b v [] (y ∷ ys) l e f = absurd (omega (arith, l))
    parse_from-injective a b v (x ∷ xs) [] l e f = absurd (omega (arith, l))
    parse_from-injective a b v (x ∷ xs) (y ∷ ys) l e f =
        let (d, dx, ex) = digit_read a v x xs e in
        let (d', dy, fy) = digit_read b v y ys f in
        let (sum, rest) =
          parse_from-injective (a * base + d) (b * base + d') v xs ys (omega (arith, l)) ex fy in
        let (high, low) = fits.unique a b d d' (below_base x d dx) (below_base y d' dy) sum in
        (high, cons-eq x y xs ys (same_char x y d dx (dy ∙ ap some (sym low))) rest)

pub IsBase-36 : IsBase 36
IsBase-36 = record {
  unique = λ a b c d lt lt' e. (omega (arith, lt, lt', e), omega (arith, lt, lt', e));
  positive = omega arith;
  split = λ n. omega arith;
  below = λ n. omega arith;
  shrinks = λ n le. omega (arith, le);
}

pub IsBase-16 : IsBase 16
IsBase-16 = record {
  unique = λ a b c d lt lt' e. (omega (arith, lt, lt', e), omega (arith, lt, lt', e));
  positive = omega arith;
  split = λ n. omega arith;
  below = λ n. omega arith;
  shrinks = λ n le. omega (arith, le);
}

pub base36_digit-char_of : (d : ℕ) → d < 36 → base36_digit (char_of d) ≡ some d
base36_digit-char_of d lt = ground (arith, lt)

pub hex_digit-char_of : (d : ℕ) → d < 16 → hex_digit (char_of d) ≡ some d
hex_digit-char_of d lt = ground (arith, lt)

-- ===== src/Preview/RoundTrip.antt =====
-- A session id in its ticket, and back.
use native.Mathlib.Nat.{pow-suc, pow-succ', mul-le-mul_right, mul_assoc}
use atoms_platform.Common.{
  ℕ, zero, suc, ◌+◌, ◌-◌, ◌*◌, ◌/◌, ◌%◌, ◌^◌, ◌≤◌, ◌<◌, ◌≡◌, refl, sym, ap, ◌∙◌, subst, Bool, true,
  false, not, Option, none, some, [], ◌∷◌, ◌++◌, ◌==◌, ltb, if◌then◌else◌, length, take, keep,
  arith, All, inl, inr, Bool-cases,
}
use atoms_platform.Preview.{
  Text, drop, dash, char_of, to_base, to_string, repeated, pad_start, is_between, hex_digit,
  base36_digit, parse_from, parse_base36, base36_session_width, encode_value, encode_uuid_base36,
  max_uuid_value, hyphenate, accept_uuid, decode_value, decode_uuid_base36,
}
use atoms_platform.Preview.Digits.{
  IsBase-36, IsBase-16, base36_digit-char_of, parse_from-pad_start, parse_from-injective,
}

-- A digit of a canonical UUID.
abbrev pub lower_digit : ℕ → Option ℕ
lower_digit c =
    if is_between 48 57 c
    then some (c - 48)
    else if is_between 97 102 c
    then some (c - 87)
    else none

lower_digit-char_of : (d : ℕ) → d < 16 → lower_digit (char_of d) ≡ some d
lower_digit-char_of d lt = ground (arith, lt)

lower_digit-below : (c d : ℕ) → lower_digit c ≡ some d → d < 16
lower_digit-below c d h = ground (arith, h)

lower_digit-same : (c e d : ℕ) → lower_digit c ≡ some d → lower_digit e ≡ some d → c ≡ e
lower_digit-same c e d h k = ground (arith, h, k)

hex_digit-lower : (c d : ℕ) → lower_digit c ≡ some d → hex_digit c ≡ some d
hex_digit-lower c d h = ground (arith, h)

plain_digit : (c d : ℕ) → lower_digit c ≡ some d → not (c == dash) ≡ true
plain_digit c d h = ground (arith, h)

-- A text of lower-case hexadecimal digits.
abbrev pub IsHex : Text → Type 0
IsHex t = All (λ c. (d : ℕ) × (lower_digit c ≡ some d)) t

shorter : (n p : ℕ) → n < p * 16 → n / 16 < p
shorter n p lt = omega (arith, lt)

length-append_one : (xs : Text) (c : ℕ) → length (xs ++ c ∷ []) ≡ suc (length xs)
length-append_one [] c = refl
length-append_one (x ∷ xs) c = ap suc (length-append_one xs c)

length-to_base : (fuel n k : ℕ) → n < 16 ^ suc k → length (to_base fuel 16 n) ≤ suc k
unfolding to_base
length-to_base zero n k lt = omega arith
length-to_base (suc fuel) n zero lt = elim (Bool-cases (ltb n 16)) [
  | inl small ↦ rw (small, to_base) (omega arith)
  | inr large ↦ absurd (ground (arith, large, lt))
]
length-to_base (suc fuel) n (suc k) lt = elim (Bool-cases (ltb n 16)) [
  | inl small ↦ rw (small, to_base) (omega arith)
  | inr large ↦
      let rest =
        length-to_base fuel (n / 16) k
          (shorter n (16 ^ suc k) (subst (λ p. n < p) (pow-suc 16 (suc k)) lt)) in
      rw (large, to_base)
        (rw (length-append_one (to_base fuel 16 (n / 16)) (char_of (n % 16))) (omega (arith, rest)))
]

length-repeated : (n : ℕ) (t : Text) → length (repeated n 48 ++ t) ≡ n + length t
length-repeated zero t = omega arith
length-repeated (suc n) t = omega (arith, length-repeated n t)

length-pad_start : (width : ℕ) (t : Text) → length t ≤ width → length (pad_start width t) ≡ width
length-pad_start width t le = omega (arith, le, length-repeated (width - length t) t)

-- A hexadecimal text has a value, below the power of its length.
record HasValue (acc : ℕ) (t : Text) (v : ℕ) : Type 0 where
  lower : parse_from lower_digit 16 acc t ≡ some v
  hex : parse_from hex_digit 16 acc t ≡ some v
  bounded : v < (acc + 1) * 16 ^ length t

grown : (acc d p : ℕ) → d < 16 → (acc * 16 + d + 1) * p ≤ (acc + 1) * (16 * p)
grown acc d p lt =
    subst (λ n. (acc * 16 + d + 1) * p ≤ n) (mul_assoc (acc + 1) 16 p)
      (mul-le-mul_right p (omega (arith, lt)))

value_of : (acc : ℕ) (t : Text) → IsHex t → (v : ℕ) × HasValue acc t v
unfolding parse_from
value_of acc [] h = (acc, record { lower = refl; hex = refl; bounded = omega arith })
value_of acc (c ∷ cs) ((d, read), h) =
    let (v, rest) = value_of (acc * 16 + d) cs h in
    (
      v,
      record {
        lower = rw read rest.lower;
        hex = rw (hex_digit-lower c d read) rest.hex;
        bounded =
            subst (λ p. v < (acc + 1) * p) (sym (pow-succ' 16 (length cs)))
              (omega
                (arith, rest.bounded, grown acc d (16 ^ length cs) (lower_digit-below c d read)));
      },
    )

keep-append : (test : ℕ → Bool) (xs ys : Text) → keep test (xs ++ ys) ≡ keep test xs ++ keep test ys
keep-append test [] ys = refl
keep-append test (x ∷ xs) ys = elim (Bool-cases (test x)) [
  | inl hit ↦ rw hit (ap (λ l. x ∷ l) (keep-append test xs ys))
  | inr miss ↦ rw miss (keep-append test xs ys)
]

abbrev plain : ℕ → Bool
plain c = not (c == dash)

keep-IsHex : (t : Text) → IsHex t → keep plain t ≡ t
keep-IsHex [] h = refl
keep-IsHex (c ∷ cs) ((d, read), h) = rw (plain_digit c d read) (ap (λ l. c ∷ l) (keep-IsHex cs h))

IsHex-take : (n : ℕ) (t : Text) → IsHex t → IsHex (take n t)
IsHex-take zero t h = tt
IsHex-take (suc n) [] h = tt
IsHex-take (suc n) (c ∷ cs) (k, h) = (k, IsHex-take n cs h)

IsHex-drop : (n : ℕ) (t : Text) → IsHex t → IsHex (drop n t)
IsHex-drop zero t h = h
IsHex-drop (suc n) [] h = tt
IsHex-drop (suc n) (c ∷ cs) (k, h) = IsHex-drop n cs h

take-drop : (n : ℕ) (t : Text) → take n t ++ drop n t ≡ t
take-drop zero t = refl
take-drop (suc n) [] = refl
take-drop (suc n) (c ∷ cs) = ap (λ l. c ∷ l) (take-drop n cs)

drop-drop : (m n k : ℕ) (t : Text) → k ≡ m + n → drop k t ≡ drop n (drop m t)
drop-drop zero n k t e = ap (λ j. drop j t) (omega (arith, e))
drop-drop (suc m) n zero t e = absurd (omega (arith, e))
drop-drop (suc m) zero (suc k) [] e = refl
drop-drop (suc m) (suc n) (suc k) [] e = refl
drop-drop (suc m) n (suc k) (c ∷ cs) e = drop-drop m n k cs (omega (arith, e))

piece : (m n k : ℕ) (t : Text) → k ≡ m + n → take n (drop m t) ++ drop k t ≡ drop m t
piece m n k t e = rw (drop-drop m n k t e) (take-drop n (drop m t))

in_range : (v : ℕ) → v < 16 ^ 32 → ltb max_uuid_value v ≡ false
in_range v lt = ground (arith, lt)

-- What is read of the text that was written.
abbrev pub next_text : (Text → Option Text) → Option Text → Option Text
next_text f none = none
next_text f (some t) = f t

module _ (hex : Text) (h : IsHex hex) where
  undash :
      (n : ℕ) (rest : Text)
      → keep plain (take 4 (drop n hex) ++ dash ∷ rest) ≡ take 4 (drop n hex) ++ keep plain rest
  undash n rest =
      keep-append plain (take 4 (drop n hex)) (dash ∷ rest)
      ∙ ap (λ l. l ++ keep plain rest)
          (keep-IsHex (take 4 (drop n hex)) (IsHex-take 4 (drop n hex) (IsHex-drop n hex h)))

  -- A slice, its dash and a rest that is already known without dashes.
  joined :
      (n k : ℕ) (rest : Text)
      → k ≡ n + 4
      → keep plain rest ≡ drop k hex
      → keep plain (take 4 (drop n hex) ++ dash ∷ rest) ≡ drop n hex
  joined n k rest e known =
      undash n rest ∙ ap (λ l. take 4 (drop n hex) ++ l) known ∙ piece n 4 k hex e

  keep-hyphenate : keep plain (hyphenate hex) ≡ hex
  keep-hyphenate =
      keep-append plain (take 8 hex) _
      ∙ ap (λ l. l ++ keep plain (dash ∷ groups)) (keep-IsHex (take 8 hex) (IsHex-take 8 hex h))
      ∙ ap (λ l. take 8 hex ++ l)
          (joined 8 12 _ refl (
            joined 12 16 _ refl
              (joined 16 20 _ refl (keep-IsHex (drop 20 hex) (IsHex-drop 20 hex h)))))
      ∙ take-drop 8 hex
    where
      groups : Text
      groups =
          take 4 (drop 8 hex)
          ++ (dash
              ∷ (take 4 (drop 12 hex) ++ (dash ∷ (take 4 (drop 16 hex) ++ (dash ∷ drop 20 hex)))))

  small : (v : ℕ) → length hex ≡ 32 → HasValue 0 hex v → v < 16 ^ 32
  small v long value = omega (arith, subst (λ n. v < 1 * 16 ^ n) long value.bounded)

  written_back : (v : ℕ) → length hex ≡ 32 → HasValue 0 hex v → pad_start 32 (to_string 16 v) ≡ hex
  written_back v long value =
      (parse_from-injective lower_digit 16 IsBase-16 lower_digit-char_of lower_digit-below
        lower_digit-same 0 0 v (pad_start 32 (to_string 16 v)) hex
        (length-pad_start 32 (to_string 16 v) (length-to_base v v 31 (small v long value))
          ∙ sym long)
        (parse_from-pad_start lower_digit 16 IsBase-16 lower_digit-char_of 32 v) value.lower).1

  -- The id of a session in lower case, 32 hexadecimal digits in the groups of a UUID, is written into a ticket and read back from it unchanged, if the check of UUIDs accepts it.
  pub decode-encode :
      (is_uuid : Text → Bool)
      → length hex ≡ 32
      → is_uuid (hyphenate hex) ≡ true
      → next_text (decode_uuid_base36 is_uuid) (encode_uuid_base36 (hyphenate hex))
        ≡ some (hyphenate hex)
  unfolding decode_uuid_base36 encode_uuid_base36
  decode-encode is_uuid long valid =
      let (v, value) = value_of 0 hex h in
      let read : parse_from hex_digit 16 0 (keep plain (hyphenate hex)) ≡ some v =
        ap (parse_from hex_digit 16 0) keep-hyphenate ∙ value.hex in
      let back =
        parse_from-pad_start base36_digit 36 IsBase-36 base36_digit-char_of base36_session_width
          v in
      ap (λ o. next_text (λ t. decode_value is_uuid (parse_base36 t)) (encode_value o)) read
      ∙ ap (decode_value is_uuid) back
      ∙ ap
          (λ b. if b then none else accept_uuid is_uuid (hyphenate (pad_start 32 (to_string 16 v))))
          (in_range v (small v long value))
      ∙ ap (λ t. accept_uuid is_uuid (hyphenate t)) (written_back v long value)
      ∙ ap (λ b. if b then some (hyphenate hex) else none) valid

-- ===== src/Preview.antt =====
-- packages/preview/src/ticket.ts: how a preview ticket writes the id of its session, in base 36. A
-- text is the list of its UTF-16 code units.
pub mod Digits
pub mod RoundTrip
use atoms_platform.Common.{
  ℕ, zero, suc, ◌+◌, ◌-◌, ◌*◌, ◌/◌, ◌%◌, ◌^◌, Bool, true, false, not, ◌&&◌, Option, none, some,
  List, [], ◌∷◌, ◌++◌, ◌==◌, leb, ltb, if◌then◌else◌, length, take, keep,
}

abbrev pub Text : Type 0
Text = List ℕ

abbrev pub drop : ℕ → Text → Text
drop zero xs = xs
drop (suc n) [] = []
drop (suc n) (x ∷ xs) = drop n xs

-- The code unit of `-`.
abbrev pub dash : ℕ
dash = 45

-- The code unit of a digit below 36.
abbrev pub char_of : ℕ → ℕ
char_of d = if ltb d 10 then 48 + d else 87 + d

-- `BigInt.toString(base)`, with the number itself as fuel.
unfoldable pub to_base : (fuel base n : ℕ) → Text
to_base zero base n = char_of n ∷ []
to_base (suc fuel) base n = elim (ltb n base) [
  | true ↦ char_of n ∷ []
  | false ↦ to_base fuel base (n / base) ++ char_of (n % base) ∷ []
]

abbrev pub to_string : (base n : ℕ) → Text
to_string base n = to_base n base n

abbrev pub repeated : ℕ → ℕ → Text
repeated zero c = []
repeated (suc n) c = c ∷ repeated n c

-- `padStart(width, "0")`
abbrev pub pad_start : ℕ → Text → Text
pad_start width t = repeated (width - length t) 48 ++ t

abbrev pub is_between : (low high c : ℕ) → Bool
is_between low high c = leb low c && leb c high

-- The digit of a character in `parseBase36`, and in a literal `0x…`.
abbrev pub base36_digit : ℕ → Option ℕ
base36_digit c =
    if is_between 48 57 c
    then some (c - 48)
    else if is_between 97 122 c
    then some (c - 87)
    else none

abbrev pub hex_digit : ℕ → Option ℕ
hex_digit c =
    if is_between 48 57 c
    then some (c - 48)
    else if is_between 97 102 c
    then some (c - 87)
    else if is_between 65 70 c
    then some (c - 55)
    else none

-- The loop of `parseBase36`, for any base.
abbrev pub add_digit : (base acc : ℕ) → Option ℕ → Option ℕ
add_digit base acc none = none
add_digit base acc (some d) = some (acc * base + d)

abbrev pub next : (ℕ → Option ℕ) → Option ℕ → Option ℕ
next f none = none
next f (some a) = f a

unfoldable pub parse_from : (ℕ → Option ℕ) → (base acc : ℕ) → Text → Option ℕ
parse_from digit base acc [] = some acc
parse_from digit base acc (c ∷ cs) =
    next (λ a. parse_from digit base a cs) (add_digit base acc (digit c))

abbrev pub parse_base36 : Text → Option ℕ
parse_base36 t = parse_from base36_digit 36 0 t

abbrev pub base36_session_width : ℕ
base36_session_width = 25

-- `encodeUuidBase36`; none stands for the error of `BigInt` on a text that is no number.
abbrev pub encode_value : Option ℕ → Option Text
encode_value none = none
encode_value (some value) = some (pad_start base36_session_width (to_string 36 value))

unfoldable pub encode_uuid_base36 : Text → Option Text
encode_uuid_base36 session_id =
    encode_value (parse_from hex_digit 16 0 (keep (λ c. not (c == dash)) session_id))

abbrev pub max_uuid_value : ℕ
max_uuid_value = 340282366920938463463374607431768211455

-- The slices 8-4-4-4-12 joined by dashes.
abbrev pub hyphenate : Text → Text
hyphenate hex =
    take 8 hex
    ++ (dash
        ∷ (take 4 (drop 8 hex)
            ++ (dash
                ∷ (take 4 (drop 12 hex)
                    ++ (dash ∷ (take 4 (drop 16 hex) ++ (dash ∷ drop 20 hex)))))))

-- `decodeUuidBase36`, where `is_uuid` is the check of a UUID; none stands for a thrown error.
abbrev pub accept_uuid : (Text → Bool) → Text → Option Text
accept_uuid is_uuid t = if is_uuid t then some t else none

abbrev pub decode_value : (Text → Bool) → Option ℕ → Option Text
decode_value is_uuid none = none
decode_value is_uuid (some n) =
    if ltb max_uuid_value n
    then none
    else accept_uuid is_uuid (hyphenate (pad_start 32 (to_string 16 n)))

unfoldable pub decode_uuid_base36 : (Text → Bool) → Text → Option Text
decode_uuid_base36 is_uuid value = decode_value is_uuid (parse_base36 value)

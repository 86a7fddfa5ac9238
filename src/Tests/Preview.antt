-- ===== src/Tests/Preview.antt =====
-- Preview: the session id of a ticket at work.
use atoms_platform.Common.{ℕ, zero, suc, ◌≡◌, refl, Bool, some, [], ◌∷◌, ◌==◌, length}
use atoms_platform.Preview.{
  Text, repeated, hyphenate, to_base, encode_uuid_base36, decode_uuid_base36,
}
use atoms_platform.Preview.RoundTrip.{IsHex, next_text, decode-encode}

-- 1f, and a for every other digit.
abbrev digits : Text
digits = 49 ∷ 102 ∷ repeated 30 97

repeated-IsHex : (n : ℕ) → IsHex (repeated n 97)
repeated-IsHex zero = tt
repeated-IsHex (suc n) = ((10, refl), repeated-IsHex n)

abbrev is_long : Text → Bool
is_long t = length t == 36

decode-encode_example :
    next_text (decode_uuid_base36 is_long) (encode_uuid_base36 (hyphenate digits))
    ≡ some (hyphenate digits)
decode-encode_example =
    decode-encode digits ((1, refl), ((15, refl), repeated-IsHex 30)) is_long refl refl

-- The number 1295 is `zz`.
zz_written : to_base 1295 36 1295 ≡ 122 ∷ 122 ∷ []
unfolding to_base
zz_written = refl

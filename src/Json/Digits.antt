-- ===== src/Json/Digits.antt =====
-- `std::strtoll` to the base 10 and `std::to_string`, over the character codes of a text.
use Prim.Native.Char.{code}
use anychat_sdk.Prelude.{
  ℕ, zero, suc, ◌+◌, ◌-◌, ◌*◌, ◌/◌, ◌%◌, String, Bool, true, false, ◌&&◌, ◌||◌, ℤ, pos, negsuc,
  List, [], ◌∷◌, Option, none, some, ltb, leb, ◌==◌, if◌then◌else◌,
}

-- The codes of the characters: the bytes, where the text is ASCII.
abbrev pub codes : String → List ℕ
codes String.[] = []
codes (String.◌∷◌ c s) = code c ∷ codes s

unfoldable pub is_digit : ℕ → Bool
is_digit c = leb b'0' c && leb c b'9'

-- `std::isspace`
unfoldable pub is_space : ℕ → Bool
is_space c = c == b' ' || (leb 9 c && leb c 13)

abbrev pub skip_spaces : List ℕ → List ℕ
skip_spaces [] = []
skip_spaces (c ∷ s) = if is_space c then skip_spaces s else c ∷ s

-- The number that the leading digits add to `n`, and what follows them.
unfoldable pub read_digits : ℕ → List ℕ → ℕ × List ℕ
read_digits n [] = (n, [])
read_digits n (c ∷ s) =
    let rest = read_digits (n * 10 + (c - b'0')) s in if is_digit c then rest else (n, c ∷ s)

-- A magnitude as an `int64_t`; beyond the range it is the nearest bound.
abbrev pub clamp64 : Bool → ℕ → ℤ
clamp64 false n = if ltb n 9223372036854775808 then pos n else pos 9223372036854775807
clamp64 true zero = pos 0
clamp64 true (suc n) = if ltb n 9223372036854775808 then negsuc n else negsuc 9223372036854775807

-- The value read after the sign, and the text from `end` on; none where there is no digit.
unfoldable pub read_magnitude : Bool → List ℕ → Option (ℤ × List ℕ)
read_magnitude minus [] = none
read_magnitude minus (c ∷ s) =
    let (n, rest) = read_digits 0 (c ∷ s) in
    if is_digit c then some (clamp64 minus n, rest) else none

unfoldable pub read_signed : List ℕ → Option (ℤ × List ℕ)
read_signed [] = none
read_signed (c ∷ s) =
    if c == b'-'
    then read_magnitude true s
    else if c == b'+'
    then read_magnitude false s
    else read_magnitude false (c ∷ s)

-- `std::strtoll(text, &end, 10)`; without a conversion `end` is the start.
unfoldable pub strtoll : List ℕ → ℤ × List ℕ
strtoll s = elim (read_signed (skip_spaces s)) [ none ↦ (pos 0, s) | some r ↦ r ]

-- The decimal digits of `n` in front of `s`, on fuel.
unfoldable pub digits_onto : ℕ → ℕ → List ℕ → List ℕ
digits_onto zero n s = s
digits_onto (suc f) n s =
    let rest = digits_onto f (n / 10) ((b'0' + n % 10) ∷ s) in
    if ltb n 10 then (b'0' + n) ∷ s else rest

-- `std::to_string`; the number itself is fuel enough.
unfoldable pub to_string : ℤ → List ℕ
to_string (pos n) = digits_onto (suc n) n []
to_string (negsuc n) = b'-' ∷ digits_onto (suc (suc n)) (suc n) []

-- A value in the range of `int64_t`.
abbrev pub in_range : Bool → ℕ → Bool
in_range false n = ltb n 9223372036854775808
in_range true n = leb n 9223372036854775808

unfoldable pub stoll_magnitude : Bool → List ℕ → Option ℤ
stoll_magnitude minus [] = none
stoll_magnitude minus (c ∷ s) =
    let n = (read_digits 0 (c ∷ s)).0 in
    if is_digit c && in_range minus n then some (clamp64 minus n) else none

-- `std::stoll`; none where it throws.
unfoldable pub stoll_signed : List ℕ → Option ℤ
unfolding stoll_magnitude
stoll_signed [] = none
stoll_signed (c ∷ s) =
    if c == b'-'
    then stoll_magnitude true s
    else if c == b'+'
    then stoll_magnitude false s
    else stoll_magnitude false (c ∷ s)

unfoldable pub stoll : List ℕ → Option ℤ
unfolding stoll_signed
stoll s = stoll_signed (skip_spaces s)

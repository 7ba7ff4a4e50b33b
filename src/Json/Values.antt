-- ===== src/Json/Values.antt =====
-- Integers and truth values of JSON payloads: `parseInt64Value` and `parseBoolValue`. A `double`
-- is known by the integer that `static_cast<int64_t>` makes of it and by whether it is zero.
use anychat_sdk.Prelude.{
  ℕ, ◌+◌, String, Bool, true, false, not, ◌&&◌, ◌||◌, ℤ, pos, ℤ-discrete, List, [], ◌∷◌, map,
  Option, none, some, leb, ◌==◌, if◌then◌else◌, to_int32,
}
use anychat_sdk.Json.Digits.{codes, strtoll}

pub record Double : Type 0 where
  pub truncated : ℤ
  pub is_zero : Bool

-- `std::variant<int64_t, double, std::string>`
pub data IntegerValue : Type 0 where
  int64 : ℤ → IntegerValue
  double : Double → IntegerValue
  text : String → IntegerValue

-- `*end == '\0'`
abbrev pub at_end : List ℕ → Bool
at_end [] = true
at_end (c ∷ s) = c == 0

-- `parseInt64String`
unfoldable pub parse_int64_codes : List ℕ → ℤ → ℤ
unfolding strtoll
parse_int64_codes [] def = def
parse_int64_codes (c ∷ s) def =
    let (parsed, end) = strtoll (c ∷ s) in if at_end end then parsed else def

unfoldable pub parse_int64_variant : IntegerValue → ℤ → ℤ
parse_int64_variant (int64 z) def = z
parse_int64_variant (double d) def = d.truncated
parse_int64_variant (text s) def = parse_int64_codes (codes s) def

unfoldable pub parse_int64_value : Option IntegerValue → ℤ → ℤ
unfolding parse_int64_variant
parse_int64_value none def = def
parse_int64_value (some v) def = parse_int64_variant v def

unfoldable pub parse_int32_value : Option IntegerValue → ℤ → ℤ
unfolding parse_int64_value
parse_int32_value v def = to_int32 (parse_int64_value v def)

-- `std::variant<bool, int64_t, double, std::string>`
pub data BooleanValue : Type 0 where
  bool : Bool → BooleanValue
  int64 : ℤ → BooleanValue
  double : Double → BooleanValue
  text : String → BooleanValue

-- `std::tolower` of an ASCII code.
abbrev pub lower : ℕ → ℕ
lower c = if leb b'A' c && leb c b'Z' then c + 32 else c

unfoldable pub to_lower : List ℕ → List ℕ
to_lower = map lower

abbrev pub same_codes : List ℕ → List ℕ → Bool
same_codes [] [] = true
same_codes (c ∷ s) (d ∷ t) = c == d && same_codes s t
same_codes _ _ = false

-- `parseBoolString`; none where it returns false.
unfoldable pub parse_bool_codes : List ℕ → Option Bool
unfolding to_lower
parse_bool_codes s =
    let lowered = to_lower s in
    if is lowered "true" || is lowered "1" || is lowered "yes" || is lowered "on"
    then some true
    else if is lowered "false" || is lowered "0" || is lowered "no" || is lowered "off"
    then some false
    else none
  where
    is : List ℕ → String → Bool
    is l w = same_codes l (codes w)

unfoldable pub parse_bool_variant : BooleanValue → Bool → Bool
unfolding parse_bool_codes
parse_bool_variant (bool b) def = b
parse_bool_variant (int64 z) def = elim (ℤ-discrete z (pos 0)) [ yes _ ↦ false | no _ ↦ true ]
parse_bool_variant (double d) def = not d.is_zero
parse_bool_variant (text s) def = elim (parse_bool_codes (codes s)) [ none ↦ def | some b ↦ b ]

unfoldable pub parse_bool_value : Option BooleanValue → Bool → Bool
unfolding parse_bool_variant
parse_bool_value none def = def
parse_bool_value (some v) def = parse_bool_variant v def

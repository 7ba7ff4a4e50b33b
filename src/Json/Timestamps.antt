-- ===== src/Json/Timestamps.antt =====
-- `normalizeUnixEpochMs` and `parseTimestampMs` of core/src/json_common.h. The reading of a
-- calendar text by `sscanf` and `timegm` is a parameter.
use anychat_sdk.Prelude.{
  ℕ, zero, suc, ◌+◌, ◌-◌, ◌*◌, ◌/◌, ◌≤◌, String, Bool, true, false, ◌&&◌, ℤ, pos, negsuc, ◌+ℤ◌,
  ltb_ℤ, ◌≡◌, arith, List, [], ◌∷◌, Option, none, some, ltb, if◌then◌else◌,
}
use anychat_sdk.Json.Digits.{codes, is_digit, read_digits}
use anychat_sdk.Json.Values.{Double}

-- A multiple of an integer.
abbrev pub scale : ℕ → ℤ → ℤ
scale k (pos n) = pos (k * n)
scale k (negsuc n) = negsuc (k * n + (k - 1))

-- Division by a positive number, towards zero.
abbrev pub quotient : ℤ → ℕ → ℤ
quotient (pos n) k = pos (n / k)
quotient (negsuc n) k = sub (suc n / k)
  where
    sub : ℕ → ℤ
    sub zero = pos 0
    sub (suc q) = negsuc q

unfoldable pub normalize_unix_epoch_ms : ℤ → ℤ
normalize_unix_epoch_ms raw =
    if ltb_ℤ (pos 0) raw && ltb_ℤ raw (pos 1000000000000) then scale 1000 raw else raw

pub record TimestampObject : Type 0 where
  pub seconds : ℤ
  pub nanos : ℤ

-- `std::variant<int64_t, double, std::string, TimestampObject>`
pub data TimestampValue : Type 0 where
  int64 : ℤ → TimestampValue
  double : Double → TimestampValue
  text : String → TimestampValue
  object : TimestampObject → TimestampValue

abbrev pub all_digits : List ℕ → Bool
all_digits [] = true
all_digits (c ∷ s) = is_digit c && all_digits s

-- `std::stoll` of digits throws beyond the range, and the handler returns 0.
unfoldable pub parse_digits_ms : List ℕ → ℤ
unfolding normalize_unix_epoch_ms
parse_digits_ms s =
    let n = (read_digits 0 s).0 in
    if ltb n 9223372036854775808 then normalize_unix_epoch_ms (pos n) else pos 0

module _ (calendar_ms : String → ℤ) where
  unfoldable pub parse_timestamp_text : String → ℤ
  unfolding parse_digits_ms
  parse_timestamp_text s =
      if is_nil (codes s)
      then pos 0
      else if all_digits (codes s)
      then parse_digits_ms (codes s)
      else calendar_ms s
    where
      is_nil : List ℕ → Bool
      is_nil [] = true
      is_nil (c ∷ l) = false

  unfoldable pub parse_timestamp_value : TimestampValue → ℤ
  unfolding parse_timestamp_text
  parse_timestamp_value (int64 z) = normalize_unix_epoch_ms z
  parse_timestamp_value (double d) = normalize_unix_epoch_ms d.truncated
  parse_timestamp_value (text s) = parse_timestamp_text s
  parse_timestamp_value (object o) =
      if not_positive o.seconds && not_positive o.nanos
      then pos 0
      else scale 1000 o.seconds +ℤ quotient o.nanos 1000000
    where
      not_positive : ℤ → Bool
      not_positive z = ltb_ℤ z (pos 1)

  unfoldable pub parse_timestamp_ms : Option TimestampValue → ℤ
  unfolding parse_timestamp_value
  parse_timestamp_ms none = pos 0
  parse_timestamp_ms (some v) = parse_timestamp_value v

-- A time that is at least 1 000 000 000, as every time since September 2001 is in seconds and in
-- milliseconds, is in milliseconds once normalized: normalizing again changes nothing.
normalize_idem :
    (n : ℕ)
    → 1000000000 ≤ n
    → normalize_unix_epoch_ms (normalize_unix_epoch_ms (pos n)) ≡ normalize_unix_epoch_ms (pos n)
unfolding normalize_unix_epoch_ms
normalize_idem n h = ground arith

-- ===== src/Json/RoundTrip.antt =====
-- What `std::to_string` prints `parseInt64Value` reads back.
use anychat_sdk.Prelude.{
  to_int64, to_int64_in_range, ℕ, zero, suc, ◌+◌, ◌-◌, ◌*◌, ◌/◌, ◌%◌, ◌<◌, Bool, true, false, ℤ,
  pos, negsuc, ◌≤ℤ◌, ◌≡◌, ◌≢◌, refl, sym, ◌∙◌, ap, inl, inr, arith, List, [], ◌∷◌, some, ltb,
  Bool-cases,
}
use anychat_sdk.Json.Digits.{
  is_digit, is_space, skip_spaces, read_digits, read_magnitude, read_signed, strtoll, digits_onto,
  to_string, clamp64, stoll, stoll_signed, stoll_magnitude,
}
use anychat_sdk.Json.Values.{parse_int64_codes}

read_digits-digit :
    (m d : ℕ) (s : List ℕ) → d < 10 → read_digits m ((b'0' + d) ∷ s) ≡ read_digits (m * 10 + d) s
unfolding read_digits is_digit
read_digits-digit m d s h =
    let e : b'0' + d - b'0' ≡ d = omega arith in
    let digit : is_digit (b'0' + d) ≡ true = ground arith in
    rw digit (ap (λ (k : ℕ). read_digits (m * 10 + k) s) e)

-- Reading what was printed in front of `s` is reading `s` with the number already read.
read-digits_onto :
    (f n : ℕ) (s : List ℕ) → n < f → read_digits 0 (digits_onto f n s) ≡ read_digits n s
unfolding digits_onto
read-digits_onto zero n s h = absurd (omega arith)
read-digits_onto (suc f) n s h = elim (Bool-cases (ltb n 10)) [
  | inl e ↦
      rw e (read_digits-digit 0 n s (ground arith) ∙ ap (λ (k : ℕ). read_digits k s) (omega arith))
  | inr e ↦ rw e (
      read-digits_onto f (n / 10) ((b'0' + n % 10) ∷ s) (ground arith)
      ∙ read_digits-digit (n / 10) (n % 10) s (omega arith)
      ∙ ap (λ (k : ℕ). read_digits k s) (omega arith))
]

-- The first character is a digit.
head-digits_onto :
    (f n : ℕ) (s : List ℕ)
    → n < f
    → (c : ℕ) × (t : List ℕ) × (digits_onto f n s ≡ c ∷ t) × (is_digit c ≡ true)
unfolding digits_onto is_digit
head-digits_onto zero n s h = absurd (omega arith)
head-digits_onto (suc f) n s h = elim (Bool-cases (ltb n 10)) [
  | inl e ↦ (b'0' + n, s, rw e, ground arith)
  | inr e ↦
      let (c, t, p, d) = head-digits_onto f (n / 10) ((b'0' + n % 10) ∷ s) (ground arith) in
      (c, t, rw e p, d)
]

read_magnitude-digits :
    (minus : Bool) (f n : ℕ)
    → n < f
    → read_magnitude minus (digits_onto f n []) ≡ some (clamp64 minus n, [])
unfolding read_magnitude
read_magnitude-digits minus f n h =
    let (c, t, p, d) = head-digits_onto f n [] h in
    rw (p, d)
      (ap (λ (r : ℕ × List ℕ). some (clamp64 minus r.0, r.1)) (ap (read_digits 0) (sym p) ∙ all))
  where
    all : read_digits 0 (digits_onto f n []) ≡ (n, [])
    all = unfold read_digits in read-digits_onto f n [] h

read_signed_of_digit :
    (c : ℕ) (t : List ℕ) → is_digit c ≡ true → read_signed (c ∷ t) ≡ read_magnitude false (c ∷ t)
unfolding read_signed is_digit
read_signed_of_digit c t h = ground arith

skip_spaces_of_digit : (c : ℕ) (t : List ℕ) → is_digit c ≡ true → skip_spaces (c ∷ t) ≡ c ∷ t
unfolding is_digit is_space
skip_spaces_of_digit c t h = ground arith

strtoll_of_read :
    (s : List ℕ) (r : ℤ × List ℕ) → read_signed (skip_spaces s) ≡ some r → strtoll s ≡ r
unfolding strtoll
strtoll_of_read s r h = rw (h, strtoll) refl

strtoll-digits : (f n : ℕ) → n < f → strtoll (digits_onto f n []) ≡ (clamp64 false n, [])
strtoll-digits f n h =
    let (c, t, p, d) = head-digits_onto f n [] h in
    let signed : read_signed (c ∷ t) ≡ some (clamp64 false n, []) =
      read_signed_of_digit c t d
      ∙ ap (read_magnitude false) (sym p)
      ∙ read_magnitude-digits false f n h in
    rw p (strtoll_of_read (c ∷ t) _ (ap read_signed (skip_spaces_of_digit c t d) ∙ signed))

read_signed-minus : (s : List ℕ) → read_signed (skip_spaces (b'-' ∷ s)) ≡ read_magnitude true s
unfolding read_signed is_space
read_signed-minus s = refl

-- The integers of an `int64_t`.
abbrev pub IsInt64 : ℤ → Type 0
IsInt64 z = (negsuc 9223372036854775807 ≤ℤ z) × (z ≤ℤ pos 9223372036854775807)

-- A sum in the range of `int64_t` is not wrapped.
pub to_int64_of_IsInt64 : (z : ℤ) → IsInt64 z → to_int64 z ≡ z
to_int64_of_IsInt64 z h = to_int64_in_range z h.0 h.1

read_all : (n : ℕ) → read_digits 0 (digits_onto (suc n) n []) ≡ (n, [])
unfolding read_digits
read_all n = read-digits_onto (suc n) n [] (omega arith)

pub strtoll-to_string : (z : ℤ) → IsInt64 z → strtoll (to_string z) ≡ (z, [])
unfolding to_string
strtoll-to_string (pos n) h =
    strtoll-digits (suc n) n (omega arith) ∙ ap (λ (w : ℤ). (w, [])) (ground arith)
strtoll-to_string (negsuc n) h =
    let read = read_magnitude-digits true (suc (suc n)) (suc n) (omega arith) in
    strtoll_of_read _ _ (read_signed-minus _ ∙ read) ∙ ap (λ (w : ℤ). (w, [])) (ground arith)

to_string-nonempty : (z : ℤ) → to_string z ≢ []
unfolding to_string
to_string-nonempty (pos n) =
    λ e. let (c, t, p, d) = head-digits_onto (suc n) n [] (omega arith) in cc (sym p ∙ e)
to_string-nonempty (negsuc n) = λ e. cc

parse_int64_of_strtoll :
    (s : List ℕ) (z def : ℤ) → s ≢ [] → strtoll s ≡ (z, []) → parse_int64_codes s def ≡ z
unfolding parse_int64_codes
parse_int64_of_strtoll [] z def n h = absurd (n refl)
parse_int64_of_strtoll (c ∷ s) z def n h = rw (h, parse_int64_codes) refl

-- The text that `to_string` makes of an `int64_t` is read back by `parseInt64Value`, whatever the
-- default.
parse_int64-to_string : (z def : ℤ) → IsInt64 z → parse_int64_codes (to_string z) def ≡ z
parse_int64-to_string z def h =
    parse_int64_of_strtoll (to_string z) z def (to_string-nonempty z) (strtoll-to_string z h)

stoll_signed_of_digit :
    (c : ℕ) (t : List ℕ) → is_digit c ≡ true → stoll_signed (c ∷ t) ≡ stoll_magnitude false (c ∷ t)
unfolding stoll_signed is_digit
stoll_signed_of_digit c t h = ground arith

stoll_magnitude_of_read :
    (c : ℕ) (t : List ℕ) (n : ℕ)
    → is_digit c ≡ true
    → read_digits 0 (c ∷ t) ≡ (n, [])
    → n < 9223372036854775808
    → stoll_magnitude false (c ∷ t) ≡ some (pos n)
unfolding stoll_magnitude
stoll_magnitude_of_read c t n d r h =
    let e : (read_digits 0 (c ∷ t)).0 ≡ n = ap (λ (p : ℕ × List ℕ). p.0) r in
    rw (d, e) (ground arith)

-- `std::stoll` reads back what `std::to_string` prints of an `int64_t` that is not negative.
pub stoll-to_string : (n : ℕ) → n < 9223372036854775808 → stoll (to_string (pos n)) ≡ some (pos n)
unfolding stoll to_string
stoll-to_string n h =
    let (c, t, p, d) = head-digits_onto (suc n) n [] (omega arith) in
    let all : read_digits 0 (c ∷ t) ≡ (n, []) = ap (read_digits 0) (sym p) ∙ read_all n in
    rw p (
      ap stoll_signed (skip_spaces_of_digit c t d)
      ∙ stoll_signed_of_digit c t d
      ∙ stoll_magnitude_of_read c t n d all h)

stoll_magnitude_of_minus :
    (c : ℕ) (t : List ℕ) (n : ℕ)
    → is_digit c ≡ true
    → read_digits 0 (c ∷ t) ≡ (suc n, [])
    → n < 9223372036854775808
    → stoll_magnitude true (c ∷ t) ≡ some (negsuc n)
unfolding stoll_magnitude
stoll_magnitude_of_minus c t n d r h =
    let e : (read_digits 0 (c ∷ t)).0 ≡ suc n = ap (λ (p : ℕ × List ℕ). p.0) r in
    rw (d, e) (ground arith)

stoll_signed_minus : (s : List ℕ) → stoll_signed (b'-' ∷ s) ≡ stoll_magnitude true s
unfolding stoll_signed
stoll_signed_minus s = refl

-- `std::stoll` reads back what `std::to_string` prints of an `int64_t`.
pub stoll-to_string_int64 : (z : ℤ) → IsInt64 z → stoll (to_string z) ≡ some z
stoll-to_string_int64 (pos n) h = stoll-to_string n (omega arith)
stoll-to_string_int64 (negsuc n) h =
    let (c, t, p, d) = head-digits_onto (suc (suc n)) (suc n) [] (omega arith) in
    let all : read_digits 0 (c ∷ t) ≡ (suc n, []) = ap (read_digits 0) (sym p) ∙ read_all (suc n) in
    unfold stoll in
    unfold to_string in
    unfold is_space in
    rw p (stoll_signed_minus (c ∷ t) ∙ stoll_magnitude_of_minus c t n d all (omega arith))

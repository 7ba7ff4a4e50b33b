-- ===== src/MessageManager/UrlEncode.antt =====
-- `urlEncode`, over the bytes of a text.
use anychat_sdk.Prelude.{
  ℕ, ◌+◌, ◌*◌, ◌/◌, ◌%◌, ◌-◌, ◌<◌, Bool, true, false, ◌&&◌, ◌||◌, ◌≡◌, refl, arith, List, [], ◌∷◌,
  All, ltb, leb, ◌==◌, if◌then◌else◌, Bool-cases, inl, inr, ap,
}

unfoldable pub is_unreserved : ℕ → Bool
is_unreserved ch =
    (leb b'A' ch && leb ch b'Z')
    || (leb b'a' ch && leb ch b'z')
    || (leb b'0' ch && leb ch b'9')
    || ch == b'-'
    || ch == b'_'
    || ch == b'.'
    || ch == b'~'

-- An upper-case hexadecimal digit.
unfoldable pub hex_digit : ℕ → ℕ
hex_digit d = if ltb d 10 then b'0' + d else b'A' + (d - 10)

unfoldable pub url_encode : List ℕ → List ℕ
unfolding is_unreserved hex_digit
url_encode [] = []
url_encode (ch ∷ s) =
    let rest = url_encode s in
    if is_unreserved ch then ch ∷ rest else b'%' ∷ hex_digit (ch / 16) ∷ hex_digit (ch % 16) ∷ rest

-- An independent reading of percent-encoding.
abbrev pub hex_value : ℕ → ℕ
hex_value c = if leb b'A' c then c - b'A' + 10 else c - b'0'

unfoldable pub url_decode : List ℕ → List ℕ
url_decode [] = []
url_decode (c ∷ h ∷ l ∷ s) =
    let escaped = url_decode s in
    let plain = url_decode (h ∷ l ∷ s) in
    if c == b'%' then (16 * hex_value h + hex_value l) ∷ escaped else c ∷ plain
url_decode (c ∷ s) = c ∷ url_decode s

hex_value-hex_digit : (d : ℕ) → d < 16 → hex_value (hex_digit d) ≡ d
unfolding hex_digit
hex_value-hex_digit d h = ground arith

unreserved_not_percent : (c : ℕ) → is_unreserved c ≡ true → (c == b'%') ≡ false
unfolding is_unreserved
unreserved_not_percent c h = ground arith

decode_plain : (c : ℕ) (s : List ℕ) → (c == b'%') ≡ false → url_decode (c ∷ s) ≡ c ∷ url_decode s
unfolding url_decode
decode_plain c [] h = refl
decode_plain c (a ∷ []) h = refl
decode_plain c (a ∷ b ∷ s) h = rw h refl

decode_nil : url_decode [] ≡ []
unfolding url_decode
decode_nil = refl

decode_escaped :
    (h l : ℕ) (s : List ℕ)
    → url_decode (b'%' ∷ h ∷ l ∷ s) ≡ (16 * hex_value h + hex_value l) ∷ url_decode s
unfolding url_decode
decode_escaped h l s = refl

-- Percent-decoding gives back the bytes that `urlEncode` was given.
pub url_decode-url_encode : (s : List ℕ) → All (λ ch. ch < 256) s → url_decode (url_encode s) ≡ s
unfolding url_encode
url_decode-url_encode [] h = decode_nil
url_decode-url_encode (ch ∷ s) h = elim (Bool-cases (is_unreserved ch)) [
  | inl e ↦
      rw (e, url_encode, decode_plain ch (url_encode s) (unreserved_not_percent ch e))
        (ap (◌∷◌ ch) (url_decode-url_encode s h.1))
  | inr e ↦
      rw
        (
          e,
          url_encode,
          decode_escaped,
          hex_value-hex_digit (ch / 16) (omega (arith, h.0)),
          hex_value-hex_digit (ch % 16) (omega arith),
          url_decode-url_encode s h.1,
        )
        (ap (λ (c : ℕ). c ∷ s) (omega arith))
]

-- ===== src/WebSocket/Url.antt =====
-- `parse_url` of core/src/network/websocket_client.cpp, over the codes of the characters.
use anychat_sdk.Prelude.{
  ℕ, zero, suc, ◌+◌, ◌/◌, ◌%◌, ◌<◌, Bool, true, false, ◌≡◌, ◌≢◌, refl, ◌∙◌, ap, inl, inr, arith, ℤ,
  pos, negsuc, ltb_ℤ, List, [], ◌∷◌, ◌++◌, Option, none, some, All, ltb, ◌==◌, if◌then◌else◌,
  Bool-cases,
}
use anychat_sdk.Json.Digits.{codes, is_digit, digits_onto, to_string, stoll}
use anychat_sdk.Json.RoundTrip.{stoll-to_string}

pub record Url : Type 0 where
  pub use_ssl : Bool
  pub host : List ℕ
  pub port : ℤ
  pub path : List ℕ

-- What follows a prefix.
unfoldable pub after_prefix : List ℕ → List ℕ → Option (List ℕ)
after_prefix [] s = some s
after_prefix (c ∷ p) [] = none
after_prefix (c ∷ p) (d ∷ s) = if c == d then after_prefix p s else none

-- What follows the first `://`.
unfoldable pub after_scheme : List ℕ → Option (List ℕ)
unfolding after_prefix
after_scheme [] = none
after_scheme (c ∷ s) = elim (after_prefix (codes "://") (c ∷ s)) [
  | some rest ↦ some rest
  | none ↦ after_scheme s
]

-- Where `find` fails, `npos + 3` is 2, and `substr` throws if the text is shorter.
unfoldable pub authority : List ℕ → Option (List ℕ)
unfolding after_scheme
authority s = elim (after_scheme s) [ some rest ↦ some rest | none ↦ from_two s ]
  where
    from_two : List ℕ → Option (List ℕ)
    from_two (a ∷ b ∷ rest) = some rest
    from_two _ = none

-- The text up to the first `/`, and from it on; a path that is missing is `/`.
unfoldable pub split_path : List ℕ → List ℕ × List ℕ
split_path [] = ([], b'/' ∷ [])
split_path (c ∷ s) =
    let rest = split_path s in if c == b'/' then ([], c ∷ s) else (c ∷ rest.0, rest.1)

-- The text in front of the last `:`, and what follows it.
unfoldable pub split_port : List ℕ → Option (List ℕ × List ℕ)
split_port [] = none
split_port (c ∷ s) = elim (split_port s) [
  | some (host, port) ↦ some (c ∷ host, port)
  | none ↦ if c == b':' then some ([], s) else none
]

-- `std::stoi`; none where it throws.
unfoldable pub stoi : List ℕ → Option ℤ
unfolding stoll
stoi s = elim (stoll s) [
  | none ↦ none
  | some z ↦
      if ltb_ℤ z (negsuc 2147483647)
      then none
      else if ltb_ℤ (pos 2147483647) z
      then none
      else some z
]

unfoldable pub is_secure : List ℕ → Bool
unfolding after_prefix
is_secure s = elim (after_prefix (codes "wss://") s) [ none ↦ false | some _ ↦ true ]

unfoldable pub with_port : Bool → List ℕ → List ℕ → Option Url
unfolding split_port stoi
with_port use_ssl host path = elim (split_port host) [
  | none ↦ some (record {
    use_ssl = use_ssl;
    host = host;
    port = (if use_ssl then pos 443 else pos 80);
    path = path;
  })
  | some (name, digits) ↦ elim (stoi digits) [
    | none ↦ none
    | some port ↦ some (record { use_ssl = use_ssl; host = name; port = port; path = path })
  ]
]

-- None where `substr` or `stoi` throws.
unfoldable pub parse_url : List ℕ → Option Url
unfolding authority split_path with_port
parse_url url = elim (authority url) [
  | none ↦ none
  | some rest ↦ let (host, path) = split_path rest in with_port (is_secure url) host path
]

-- A character that ends neither a host nor a port.
abbrev pub IsPlain : ℕ → Type 0
IsPlain c = (c ≢ b'/') × (c ≢ b':')

digit-IsPlain : (c : ℕ) → is_digit c ≡ true → IsPlain c
unfolding is_digit
digit-IsPlain c h = ground arith

digits_onto-IsPlain :
    (f n : ℕ) (s : List ℕ) → n < f → All IsPlain s → All IsPlain (digits_onto f n s)
unfolding digits_onto
digits_onto-IsPlain zero n s h a = absurd (omega arith)
digits_onto-IsPlain (suc f) n s h a = elim (Bool-cases (ltb n 10)) [
  | inl e ↦ rw e ((ground arith, ground arith), a)
  | inr e ↦ rw e (
      digits_onto-IsPlain f (n / 10) ((b'0' + n % 10) ∷ s) (ground arith)
        ((ground arith, ground arith), a))
]

split_path-plain :
    (h s : List ℕ) → All IsPlain h → split_path (h ++ s) ≡ (h ++ (split_path s).0, (split_path s).1)
unfolding split_path
split_path-plain [] s a = refl
split_path-plain (c ∷ h) s a = ground (arith, a.0, split_path-plain h s a.1)

split_port-plain : (s : List ℕ) → All IsPlain s → split_port s ≡ none
unfolding split_port
split_port-plain [] a = refl
split_port-plain (c ∷ s) a = ground (arith, a.0, split_port-plain s a.1)

split_port-colon : (h s : List ℕ) → All IsPlain s → split_port (h ++ b':' ∷ s) ≡ some (h, s)
unfolding split_port
split_port-colon [] s a = ground (arith, split_port-plain s a)
split_port-colon (c ∷ h) s a = ground (arith, split_port-colon h s a)

-- The two schemes that the comment of `parse_url` names.
abbrev pub scheme : Bool → List ℕ
scheme true = codes "wss://"
scheme false = codes "ws://"

abbrev pub print_url : Bool → List ℕ → ℕ → List ℕ → List ℕ
print_url use_ssl host port path =
    scheme use_ssl ++ (host ++ (b':' ∷ (to_string (pos port) ++ (b'/' ∷ path))))

to_string-IsPlain : (n : ℕ) → All IsPlain (to_string (pos n))
unfolding to_string
to_string-IsPlain n = digits_onto-IsPlain (suc n) n [] (omega arith) tt

append_nil : (s : List ℕ) → s ++ [] ≡ s
append_nil [] = refl
append_nil (c ∷ s) = ap (λ l. c ∷ l) (append_nil s)

authority-scheme : (use_ssl : Bool) (s : List ℕ) → authority (scheme use_ssl ++ s) ≡ some s
unfolding authority after_scheme after_prefix
authority-scheme true s = refl
authority-scheme false s = refl

is_secure-scheme : (use_ssl : Bool) (s : List ℕ) → is_secure (scheme use_ssl ++ s) ≡ use_ssl
unfolding is_secure after_prefix
is_secure-scheme true s = refl
is_secure-scheme false s = refl

split_path-port :
    (h digits path : List ℕ)
    → All IsPlain h
    → All IsPlain digits
    → split_path (h ++ (b':' ∷ (digits ++ (b'/' ∷ path)))) ≡ (h ++ b':' ∷ digits, b'/' ∷ path)
unfolding split_path
split_path-port h digits path a d =
    split_path-plain h (b':' ∷ (digits ++ (b'/' ∷ path))) a
    ∙ ap (λ (r : List ℕ × List ℕ). (h ++ b':' ∷ r.0, r.1))
        (split_path-plain digits (b'/' ∷ path) d ∙ ap (λ l. (l, b'/' ∷ path)) (append_nil digits))

stoi-to_string : (n : ℕ) → n < 2147483648 → stoi (to_string (pos n)) ≡ some (pos n)
unfolding stoi
stoi-to_string n h = rw (stoll-to_string n (omega arith), stoi) (ground arith)

parse_url_of_parts :
    (url rest : List ℕ) (use_ssl : Bool)
    → authority url ≡ some rest
    → is_secure url ≡ use_ssl
    → parse_url url ≡ with_port use_ssl (split_path rest).0 (split_path rest).1
unfolding parse_url
parse_url_of_parts url rest use_ssl e secure = rw (e, parse_url, secure) refl

-- A URL that is written with one of the schemes, a host without `/` and `:`, a port that is an
-- `int` and a path is read as these.
pub parse_url-print_url :
    (use_ssl : Bool) (host : List ℕ) (port : ℕ) (path : List ℕ)
    → All IsPlain host
    → port < 2147483648
    → parse_url (print_url use_ssl host port path)
      ≡ some (record { use_ssl = use_ssl; host = host; port = pos port; path = b'/' ∷ path })
unfolding with_port
parse_url-print_url use_ssl host port path a h =
    let rest = host ++ (b':' ∷ (to_string (pos port) ++ (b'/' ∷ path))) in
    parse_url_of_parts (print_url use_ssl host port path) rest use_ssl
      (authority-scheme use_ssl rest) (is_secure-scheme use_ssl rest)
    ∙ ap (λ (r : List ℕ × List ℕ). with_port use_ssl r.0 r.1)
        (split_path-port host (to_string (pos port)) path a (to_string-IsPlain port))
    ∙ rw
        (
          split_port-colon host (to_string (pos port)) (to_string-IsPlain port),
          with_port,
          stoi-to_string port h,
        )
        refl

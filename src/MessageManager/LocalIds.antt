-- ===== src/MessageManager/LocalIds.antt =====
-- `generateLocalId`: the ids that the client gives to its own messages.
use Prim.Native.Char.{Char}
use Prim.Native.String.{◌∷◌ as cons}
use anychat_sdk.Prelude.{ℕ, zero, suc, ◌/◌, ◌%◌, String, ltb, if◌then◌else◌, List, [], ◌∷◌}

abbrev pub char_at : ℕ → Char → List Char → Char
char_at d c [] = c
char_at zero c (x ∷ xs) = c
char_at (suc d) c (x ∷ xs) = char_at d x xs

abbrev pub digit_char : ℕ → Char
digit_char d = char_at d "0" ("1" ∷ "2" ∷ "3" ∷ "4" ∷ "5" ∷ "6" ∷ "7" ∷ "8" ∷ "9" ∷ [])

-- The decimal digits of `n` in front of `s`, on fuel.
unfoldable pub text_onto : ℕ → ℕ → String → String
text_onto zero n s = s
text_onto (suc f) n s =
    let rest = text_onto f (n / 10) (cons (digit_char (n % 10)) s) in
    if ltb n 10 then cons (digit_char n) s else rest

-- The counter's number behind `local_`. The number itself is fuel enough for its digits.
unfoldable pub local_id : ℕ → String
unfolding text_onto
local_id n =
    let number = text_onto (suc n) n "" in
    cons "l" (cons "o" (cons "c" (cons "a" (cons "l" (cons "_" number)))))

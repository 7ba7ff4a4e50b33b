-- ===== src/Prelude/Text.antt =====
-- Texts (`std::string`) compared for equality, by a decision.
use Prim.Native.String.{String}
use mathlib.Core.Bool.{Bool, true, false}
use mathlib.Core.Logic.{◌↔◌, ◌≢◌}
use mathlib.Core.Path.{◌≡◌, refl, sym, ◌∙◌}
use text.Mathlib.Text.{◌==◌}
use text.Mathlib.TextEquality.{eq_iff}

pub false_not_true : ¬ (false ≡ true)
false_not_true e = cc

unfoldable pub dec_of_test {ℓ} : {P : Type ℓ} (b : Bool) → (b ≡ true) ↔ P → Dec P
dec_of_test true h = yes (h.0 refl)
dec_of_test false h = no (λ p. false_not_true (h.1 p))

-- Two texts are equal or not.
unfoldable pub text_dec : Discrete String
unfolding dec_of_test
text_dec a b = dec_of_test (a == b) (eq_iff a b)

-- `a == b`
abbrev pub same_text : String → String → Bool
same_text a b = elim (text_dec a b) [ yes _ ↦ true | no _ ↦ false ]

-- `s.empty()`
abbrev pub is_empty : String → Bool
is_empty s = same_text s ""

-- Two texts that the test tells apart, such as two literals.
pub text_ne : (a b : String) → (a == b) ≡ false → a ≢ b
text_ne a b h = λ e. false_not_true (sym h ∙ (eq_iff a b).1 e)

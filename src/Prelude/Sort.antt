-- ===== src/Prelude/Sort.antt =====
-- Sorting by a comparator: `std::stable_sort` as the stable insertion sort, and `std::sort` and
-- SQL's `ORDER BY` as any function that sorts and keeps the items.
use mathlib.Core.Bool.{Bool, true, false}
use mathlib.Core.List.{List, [], ◌∷◌}
use mathlib.Core.Logic.{inl, inr}
use mathlib.Core.Path.{◌≡◌, refl}
use native.Mathlib.Omega.{arith}
use anychat_sdk.Prelude.Tests.{if◌then◌else◌, Bool-cases}
use anychat_sdk.Prelude.Lists.{All, count_if, keep_if}

-- What the C++ library asks of a comparator: a strict weak order.
pub record IsStrictWeak {ℓ} {A : Type ℓ} (less : A → A → Bool) : Type ℓ where
  pub asym : (a b : A) → less a b ≡ true → less b a ≡ false
  pub not_less_trans : (a b c : A) → less b a ≡ false → less c b ≡ false → less c a ≡ false

-- No entry is less than one before it.
abbrev pub Sorted {ℓ} : {A : Type ℓ} → (A → A → Bool) → List A → Type ℓ
Sorted less [] = Unit
Sorted less (x ∷ xs) = All (λ y. less y x ≡ false) xs × Sorted less xs

-- A sort that need not be stable.
pub record Sorter {ℓ} {A : Type ℓ} (less : A → A → Bool) : Type ℓ where
  pub sort : List A → List A
  pub sorted : (xs : List A) → Sorted less (sort xs)
  pub same_items : (p : A → Bool) (xs : List A) → count_if p (sort xs) ≡ count_if p xs

module _ {ℓ} {A : Type ℓ} (less : A → A → Bool) where
  unfoldable pub insert : A → List A → List A
  insert x [] = x ∷ []
  insert x (y ∷ ys) = if less y x then y ∷ insert x ys else x ∷ y ∷ ys

  unfoldable pub stable_sort : List A → List A
  unfolding insert
  stable_sort [] = []
  stable_sort (x ∷ xs) = insert x (stable_sort xs)

  insert-All {κ} : (P : A → Type κ) (x : A) (ys : List A) → P x → All P ys → All P (insert x ys)
  unfolding insert
  insert-All P x [] px h = (px, tt)
  insert-All P x (y ∷ ys) px h = elim (Bool-cases (less y x)) [
    | inl e ↦ rw e (h.0, insert-All P x ys px h.1)
    | inr e ↦ rw e (px, h)
  ]

  pub stable_sort-All {κ} : (P : A → Type κ) (xs : List A) → All P xs → All P (stable_sort xs)
  unfolding stable_sort
  stable_sort-All P [] h = h
  stable_sort-All P (x ∷ xs) h = insert-All P x _ h.0 (stable_sort-All P xs h.1)

  count_if-insert :
      (p : A → Bool) (x : A) (ys : List A) → count_if p (insert x ys) ≡ count_if p (x ∷ ys)
  unfolding insert
  count_if-insert p x [] = refl
  count_if-insert p x (y ∷ ys) = ground (arith, count_if-insert p x ys)

  -- Sorting keeps every item, as often as it was there.
  pub count_if-stable_sort :
      (p : A → Bool) (xs : List A) → count_if p (stable_sort xs) ≡ count_if p xs
  unfolding stable_sort
  count_if-stable_sort p [] = refl
  count_if-stable_sort p (x ∷ xs) =
      ground (arith, count_if-insert p x (stable_sort xs), count_if-stable_sort p xs)

  keep_if-insert :
      (p : A → Bool) (x : A) (ys : List A)
      → ((y : A) → p x ≡ true → p y ≡ true → less y x ≡ false)
      → keep_if p (insert x ys) ≡ keep_if p (x ∷ ys)
  unfolding insert
  keep_if-insert p x [] h = refl
  keep_if-insert p x (y ∷ ys) h = ground (arith, keep_if-insert p x ys h, h y)

  -- Items that the comparator does not tell apart keep their order.
  pub stable_sort_stable :
      (p : A → Bool)
      → ((a b : A) → p a ≡ true → p b ≡ true → less b a ≡ false)
      → (xs : List A) → keep_if p (stable_sort xs) ≡ keep_if p xs
  unfolding stable_sort
  stable_sort_stable p h [] = refl
  stable_sort_stable p h (x ∷ xs) =
      ground (arith, keep_if-insert p x (stable_sort xs) (h x), stable_sort_stable p h xs)

  insert_first : (x : A) (ys : List A) → All (λ y. less y x ≡ false) ys → insert x ys ≡ x ∷ ys
  unfolding insert
  insert_first x [] h = refl
  insert_first x (y ∷ ys) h = rw h.0

  -- A sorted list is left as it is.
  pub stable_sort_of_Sorted : (xs : List A) → Sorted less xs → stable_sort xs ≡ xs
  unfolding stable_sort
  stable_sort_of_Sorted [] h = refl
  stable_sort_of_Sorted (x ∷ xs) h = rw (stable_sort_of_Sorted xs h.1) (insert_first x xs h.0)

module _ {ℓ} {A : Type ℓ} {less : A → A → Bool} (order : IsStrictWeak less) where
  not_less_rest :
      (x y : A) (ys : List A)
      → less y x ≡ false
      → All (λ z. less z y ≡ false) ys
      → All (λ z. less z x ≡ false) ys
  not_less_rest x y [] h a = tt
  not_less_rest x y (z ∷ ys) h a = (order.not_less_trans x y z h a.0, not_less_rest x y ys h a.1)

  insert-Sorted : (x : A) (ys : List A) → Sorted less ys → Sorted less (insert less x ys)
  unfolding insert
  insert-Sorted x [] s = (tt, tt)
  insert-Sorted x (y ∷ ys) s = elim (Bool-cases (less y x)) [
    | inl e ↦ rw e (
      insert-All less (λ z. less z y ≡ false) x ys (order.asym y x e) s.0,
      insert-Sorted x ys s.1,
    )
    | inr e ↦ rw e ((e, not_less_rest x y ys e s.0), s)
  ]

  pub stable_sort-Sorted : (xs : List A) → Sorted less (stable_sort less xs)
  unfolding stable_sort
  stable_sort-Sorted [] = tt
  stable_sort-Sorted (x ∷ xs) = insert-Sorted x (stable_sort less xs) (stable_sort-Sorted xs)

  -- The stable sort is one of the sorts.
  abbrev pub stable_sorter : Sorter less
  stable_sorter = record {
    sort = stable_sort less;
    sorted = stable_sort-Sorted;
    same_items = count_if-stable_sort less;
  }

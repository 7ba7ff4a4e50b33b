-- ===== src/Prelude/Dict.antt =====
-- A `std::unordered_map` as an association list. A lookup reads the first entry of a key.
use mathlib.Core.List.{List, [], ◌∷◌}
use mathlib.Core.Logic.{ite}
use mathlib.Core.Option.{Option, none, some}
use mathlib.Core.Path.{◌≡◌, refl}
use native.Mathlib.Omega.{arith}

module _ {ℓ} {K V : Type ℓ} (dec : Discrete K) where
  -- `find`
  unfoldable pub lookup : K → List (K × V) → Option V
  lookup k [] = none
  lookup k ((j, v) ∷ m) = ite (dec j k) (some v) (lookup k m)

  -- `m[k] = v`
  unfoldable pub assign : K → V → List (K × V) → List (K × V)
  assign k v [] = (k, v) ∷ []
  assign k v ((j, w) ∷ m) = ite (dec j k) ((j, v) ∷ m) ((j, w) ∷ assign k v m)

  -- `erase(k)`
  unfoldable pub erase : K → List (K × V) → List (K × V)
  erase k [] = []
  erase k ((j, w) ∷ m) = ite (dec j k) (erase k m) ((j, w) ∷ erase k m)

  -- `emplace(k, v)`: an entry that is there stays.
  unfoldable pub emplace : K → V → List (K × V) → List (K × V)
  emplace k v m = elim (lookup k m) [ none ↦ (k, v) ∷ m | some w ↦ m ]

  pub lookup-assign :
      (k q : K) (v : V) (m : List (K × V))
      → lookup q (assign k v m) ≡ ite (dec k q) (some v) (lookup q m)
  unfolding lookup assign
  lookup-assign k q v [] = refl
  lookup-assign k q v ((j, w) ∷ m) = ground (arith, lookup-assign k q v m)

  pub lookup-erase :
      (k q : K) (m : List (K × V)) → lookup q (erase k m) ≡ ite (dec k q) none (lookup q m)
  unfolding lookup erase
  lookup-erase k q [] = ground arith
  lookup-erase k q ((j, w) ∷ m) = ground (arith, lookup-erase k q m)

  pub lookup-emplace :
      (k q : K) (v : V) (m : List (K × V))
      → lookup q (emplace k v m)
        ≡ elim (lookup k m) [ none ↦ ite (dec k q) (some v) (lookup q m) | some w ↦ lookup q m ]
  unfolding lookup emplace
  lookup-emplace k q v m = ground arith

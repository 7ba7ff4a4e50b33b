-- ===== src/Cache/LruCache/Spec.antt =====
-- What `LruCache` promises, on its keys and values, the most recently used first.
use anychat_sdk.Prelude.{ℕ, List, [], ◌∷◌, Option, none, some, length, leb, ite, if◌then◌else◌}
use anychat_sdk.Prelude.Dict.{lookup}

unfoldable pub drop_last : {A : Type 0} → List A → Option (List A)
drop_last [] = none
drop_last (e ∷ es) = elim (drop_last es) [ none ↦ some [] | some r ↦ some (e ∷ r) ]

module _ {K V : Type 0} (dec : Discrete K) where
  unfoldable pub without : K → List (K × V) → List (K × V)
  without k [] = []
  without k ((j, v) ∷ es) = ite (dec j k) es ((j, v) ∷ without k es)

  unfoldable pub get : K → List (K × V) → List (K × V) × Option V
  unfolding without
  get k es = elim (lookup dec k es) [ none ↦ (es, none) | some v ↦ ((k, v) ∷ without k es, some v) ]

  -- None where an entry would have to be evicted and there is none.
  unfoldable pub put : ℕ → K → V → List (K × V) → Option (List (K × V))
  unfolding without drop_last
  put capacity k v es = elim (lookup dec k es) [
    | some w ↦ some ((k, v) ∷ without k es)
    | none ↦
        if leb capacity (length es)
        then elim (drop_last es) [ none ↦ none | some rest ↦ some ((k, v) ∷ rest) ]
        else some ((k, v) ∷ es)
  ]

-- ===== src/Cache/LruCache/Last.antt =====
-- The last node of the list of `LruCache`, which an eviction removes.
use anychat_sdk.Prelude.{
  ℕ, ◌<◌, ◌≡◌, ◌≢◌, refl, inl, inr, arith, List, [], ◌∷◌, none, some, All, ite, Option-cases,
}
use anychat_sdk.Cache.LruCache.Spec.{drop_last}
use anychat_sdk.Cache.LruCache.{Node, node_at, pop_back}
use anychat_sdk.Cache.LruCache.Nodes.{view, iterator_of, IsDistinct}

module _ {K V : Type 0} (dec : Discrete K) where
  pub pop_back-none : (ns : List (Node K V)) → pop_back ns ≡ none → drop_last (view ns) ≡ none
  unfolding pop_back drop_last view
  pop_back-none [] h = refl
  pop_back-none (m ∷ ns) h = elim (Option-cases (pop_back ns)) [
    | inl e ↦ ground (arith, e)
    | inr (r, e) ↦ ground (arith, e)
  ]

  pub pop_back-nil : (ns : List (Node K V)) → pop_back ns ≡ none → ns ≡ []
  unfolding pop_back
  pop_back-nil [] h = refl
  pop_back-nil (m ∷ ns) h = elim (Option-cases (pop_back ns)) [
    | inl e ↦ absurd (ground (arith, e))
    | inr (r, e) ↦ absurd (ground (arith, e))
  ]

  -- The last node is one of the list's.
  pub last-present :
      (ns : List (Node K V)) (l : Node K V) (rest : List (Node K V))
      → pop_back ns ≡ some (l, rest)
      → iterator_of dec l.key ns ≢ none
  unfolding pop_back iterator_of
  last-present [] l rest h = cc
  last-present (m ∷ ns) l rest h = elim (Option-cases (pop_back ns)) [
    | inl e ↦ ground (arith, e)
    | inr ((x, r), e) ↦ ground (arith, e, last-present ns x r e)
  ]

  -- What is left when the last node is gone.
  abbrev Rest : List (Node K V) → Node K V → List (Node K V) → Type 0
  Rest ns l rest =
      (drop_last (view ns) ≡ some (view rest))
      × IsDistinct dec rest
      × ((j : K) → iterator_of dec j rest ≡ ite (dec l.key j) none (iterator_of dec j ns))
      × ((i : ℕ) → node_at i ns ≡ none → node_at i rest ≡ none)
      × ((i : ℕ) → All (λ n. n.iterator < i) ns → All (λ n. n.iterator < i) rest)

  pub pop_back_single : (m : Node K V) → Rest (m ∷ []) m []
  unfolding drop_last view iterator_of node_at
  pop_back_single m = (refl, tt, (λ j. ground arith), (λ i h. refl), (λ i a. tt))

  pub pop_back_longer :
      (m l : Node K V) (ns rest : List (Node K V))
      → IsDistinct dec (m ∷ ns)
      → iterator_of dec l.key ns ≢ none
      → Rest ns l rest
      → Rest (m ∷ ns) l (m ∷ rest)
  unfolding drop_last view iterator_of node_at
  pop_back_longer m l ns rest d p (v, w, q, n, a) = (
    ground (arith, v),
    (n m.iterator d.0, ground (arith, q m.key, d.1), w),
    (λ j. ground (arith, q j, d.1, p)),
    (λ i h. ground (arith, h, n i)),
    (λ i h. (h.0, a i h.1)),
  )

  pub pop_back-some :
      (ns : List (Node K V)) (l : Node K V) (rest : List (Node K V))
      → pop_back ns ≡ some (l, rest)
      → IsDistinct dec ns
      → Rest ns l rest
  unfolding pop_back
  pop_back-some [] l rest h d = cc
  pop_back-some (m ∷ ns) l rest h d = elim (Option-cases (pop_back ns)) [
    | inl e ↦
        let last : l ≡ m = ground (arith, e, h) in
        let left : rest ≡ [] = ground (arith, e, h) in
        rw (last, left, pop_back-nil ns e) (pop_back_single m)
    | inr ((x, r), e) ↦
        let last : l ≡ x = ground (arith, e, h) in
        let left : rest ≡ m ∷ r = ground (arith, e, h) in
        rw (last, left)
          (pop_back_longer m x ns r d (last-present ns x r e) (pop_back-some ns x r e d.2))
  ]

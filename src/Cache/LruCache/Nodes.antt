-- ===== src/Cache/LruCache/Nodes.antt =====
-- The nodes of the list of `LruCache`.
use anychat_sdk.Prelude.{
  ℕ, suc, ◌<◌, ◌≡◌, refl, inl, inr, arith, List, [], ◌∷◌, Option, none, some, All, length, ◌==◌,
  ite, Bool-cases,
}
use anychat_sdk.Prelude.Dict.{lookup}
use anychat_sdk.Cache.LruCache.Spec.{without}
use anychat_sdk.Cache.LruCache.{Node, node_at, erase_at, write_at}

module _ {K V : Type 0} where
  -- The keys and values of the nodes.
  unfoldable pub view : List (Node K V) → List (K × V)
  view [] = []
  view (n ∷ ns) = (n.key, n.value) ∷ view ns

module _ {K V : Type 0} (dec : Discrete K) where
  -- The iterator of the first node with the key.
  unfoldable pub iterator_of : K → List (Node K V) → Option ℕ
  iterator_of k [] = none
  iterator_of k (n ∷ ns) = ite (dec n.key k) (some n.iterator) (iterator_of k ns)

  -- No iterator and no key occurs twice.
  abbrev pub IsDistinct : List (Node K V) → Type 0
  IsDistinct [] = Unit {0}
  IsDistinct (n ∷ ns) =
      (node_at n.iterator ns ≡ none) × (iterator_of n.key ns ≡ none) × IsDistinct ns

  pub lookup-view :
      (k : K) (i : ℕ) (ns : List (Node K V))
      → IsDistinct ns
      → iterator_of k ns ≡ some i
      → (n : Node K V) × (node_at i ns ≡ some n)
        × (n.key ≡ k)
        × (n.iterator ≡ i)
        × (lookup dec k (view ns) ≡ some n.value)
  unfolding iterator_of node_at view lookup
  lookup-view k i [] d h = cc
  lookup-view k i (m ∷ ns) d h = elim (dec m.key k) [
    | yes e ↦ (m, ground (arith, e, h), e, ground (arith, e, h), ground (arith, e))
    | no e ↦
        let (n, p, q, r, s) = lookup-view k i ns d.2 (ground (arith, e, h)) in
        (n, ground (arith, p, r, d.0), q, r, ground (arith, e, s))
  ]

  pub lookup-view-none :
      (k : K) (ns : List (Node K V)) → iterator_of k ns ≡ none → lookup dec k (view ns) ≡ none
  unfolding iterator_of view lookup
  lookup-view-none k [] h = refl
  lookup-view-none k (m ∷ ns) h = ground (arith, lookup-view-none k ns)

  pub view-erase_at :
      (k : K) (i : ℕ) (ns : List (Node K V))
      → IsDistinct ns
      → iterator_of k ns ≡ some i
      → view (erase_at i ns) ≡ without dec k (view ns)
  unfolding iterator_of node_at view erase_at without
  view-erase_at k i [] d h = cc
  view-erase_at k i (m ∷ ns) d h = elim (dec m.key k) [
    | yes e ↦ ground (arith, e, h)
    | no e ↦
        let (n, p, q, r, s) = lookup-view k i ns d.2 (ground (arith, e, h)) in
        ground (arith, e, p, r, d.0, view-erase_at k i ns d.2 (ground (arith, e, h)))
  ]

  pub iterator_of-erase_at :
      (k j : K) (i : ℕ) (ns : List (Node K V))
      → IsDistinct ns
      → iterator_of k ns ≡ some i
      → iterator_of j (erase_at i ns) ≡ ite (dec k j) none (iterator_of j ns)
  unfolding iterator_of node_at erase_at
  iterator_of-erase_at k j i [] d h = cc
  iterator_of-erase_at k j i (m ∷ ns) d h = elim (dec m.key k) [
    | yes e ↦ ground (arith, e, h, d.1)
    | no e ↦
        let (n, p, q, r, s) = lookup-view k i ns d.2 (ground (arith, e, h)) in
        ground (arith, e, p, r, d.0, iterator_of-erase_at k j i ns d.2 (ground (arith, e, h)))
  ]

  pub node_at-erase_at :
      (i j : ℕ) (ns : List (Node K V)) → node_at j ns ≡ none → node_at j (erase_at i ns) ≡ none
  unfolding node_at erase_at
  node_at-erase_at i j [] h = h
  node_at-erase_at i j (m ∷ ns) h = ground (arith, node_at-erase_at i j ns)

  pub absent-erase_at :
      (i : ℕ) (j : K) (ns : List (Node K V))
      → iterator_of j ns ≡ none
      → iterator_of j (erase_at i ns) ≡ none
  unfolding iterator_of erase_at
  absent-erase_at i j [] h = h
  absent-erase_at i j (m ∷ ns) h = ground (arith, absent-erase_at i j ns)

  pub erase_at-IsDistinct :
      (i : ℕ) (ns : List (Node K V)) → IsDistinct ns → IsDistinct (erase_at i ns)
  unfolding erase_at
  erase_at-IsDistinct i [] d = d
  erase_at-IsDistinct i (m ∷ ns) d = elim (Bool-cases (m.iterator == i)) [
    | inl e ↦ rw (e, erase_at) d.2
    | inr e ↦
        rw (e, erase_at)
          (
            node_at-erase_at i m.iterator ns d.0,
            absent-erase_at i m.key ns d.1,
            erase_at-IsDistinct i ns d.2,
          )
  ]

  pub erase_at-All :
      (P : Node K V → Type 0) (i : ℕ) (ns : List (Node K V)) → All P ns → All P (erase_at i ns)
  unfolding erase_at
  erase_at-All P i [] a = a
  erase_at-All P i (m ∷ ns) a = elim (Bool-cases (m.iterator == i)) [
    | inl e ↦ rw (e, erase_at) a.1
    | inr e ↦ rw (e, erase_at) (a.0, erase_at-All P i ns a.1)
  ]

  pub erase_at-write_at :
      (i : ℕ) (v : V) (ns : List (Node K V)) → erase_at i (write_at i v ns) ≡ erase_at i ns
  unfolding erase_at write_at
  erase_at-write_at i v [] = refl
  erase_at-write_at i v (m ∷ ns) = ground (arith, erase_at-write_at i v ns)

  pub node_at-write_at :
      (i : ℕ) (v : V) (ns : List (Node K V)) (n : Node K V)
      → node_at i ns ≡ some n
      → node_at i (write_at i v ns) ≡ some (record n { value = v })
  unfolding node_at write_at
  node_at-write_at i v [] n h = cc
  node_at-write_at i v (m ∷ ns) n h = ground (arith, node_at-write_at i v ns n)

  -- An iterator that is greater than all others points to no node.
  pub node_at-fresh :
      (i : ℕ) (ns : List (Node K V)) → All (λ n. n.iterator < i) ns → node_at i ns ≡ none
  unfolding node_at
  node_at-fresh i [] a = refl
  node_at-fresh i (m ∷ ns) a = ground (arith, a.0, node_at-fresh i ns a.1)

  pub All-later :
      (i : ℕ) (ns : List (Node K V))
      → All (λ n. n.iterator < i) ns
      → All (λ n. n.iterator < suc i) ns
  All-later i [] a = tt
  All-later i (m ∷ ns) a = (omega (arith, a.0), All-later i ns a.1)

  pub length-view : (ns : List (Node K V)) → length (view ns) ≡ length ns
  unfolding view
  length-view [] = refl
  length-view (m ∷ ns) = ground (arith, length-view ns)

  pub erased_gone :
      (i : ℕ) (ns : List (Node K V)) → IsDistinct ns → node_at i (erase_at i ns) ≡ none
  unfolding node_at erase_at
  erased_gone i [] d = refl
  erased_gone i (m ∷ ns) d = ground (arith, d.0, erased_gone i ns d.2)

  pub iterator_of-below :
      (k : K) (i next : ℕ) (ns : List (Node K V))
      → All (λ n. n.iterator < next) ns
      → iterator_of k ns ≡ some i
      → i < next
  unfolding iterator_of
  iterator_of-below k i next [] a h = cc
  iterator_of-below k i next (m ∷ ns) a h = ground (arith, a.0, iterator_of-below k i next ns a.1)

  pub without-absent :
      (k : K) (ns : List (Node K V)) → iterator_of k ns ≡ none → without dec k (view ns) ≡ view ns
  unfolding iterator_of view without
  without-absent k [] h = refl
  without-absent k (m ∷ ns) h = ground (arith, without-absent k ns)

-- ===== src/Cache/LruCache/Refinement.antt =====
-- `LruCache` behaves as a list of keys and values, the most recently used first.
use anychat_sdk.Prelude.{
  ℕ, ◌<◌, true, ◌≡◌, refl, sym, ◌∙◌, ap, inl, inr, arith, List, ◌∷◌, Option, none, some, All,
  length, leb, Bool-cases, Option-cases,
}
use anychat_sdk.Prelude.Dict.{lookup, erase, lookup-assign, lookup-erase}
use anychat_sdk.Cache.LruCache.Spec as Spec
use anychat_sdk.Cache.LruCache.Spec.{without, drop_last}
use anychat_sdk.Cache.LruCache.{
  Node, LruCache, create, node_at, erase_at, splice_front, write_at, pop_back, get, remove, put,
  insert_front, evict,
}
use anychat_sdk.Cache.LruCache.Nodes.{
  without-absent, view, iterator_of, IsDistinct, lookup-view, lookup-view-none, view-erase_at,
  iterator_of-erase_at, erase_at-IsDistinct, erase_at-All, erase_at-write_at, node_at-write_at,
  node_at-fresh, All-later, length-view, erased_gone, iterator_of-below,
}
use anychat_sdk.Cache.LruCache.Last.{pop_back-none, pop_back-some}

-- The map holds the iterator of each key's node.
pub record IsLinked {K V : Type 0} (dec : Discrete K) (c : LruCache K V) : Type 0 where
  pub linked : (k : K) → lookup dec k c.map ≡ iterator_of dec k c.list
  pub distinct : IsDistinct dec c.list
  pub fresh : All (λ n. n.iterator < c.next) c.list

module _ {K V : Type 0} (dec : Discrete K) where
  pub create-IsLinked : (capacity : ℕ) → IsLinked {V = V} dec (create capacity)
  unfolding create lookup iterator_of
  create-IsLinked capacity = record { linked = λ k. refl; distinct = tt; fresh = tt }

  -- Where the key is in the map, so is its node in the list.
  spliced :
      (k : K) (i : ℕ) (n : Node K V) (ns : List (Node K V))
      → IsDistinct dec ns
      → iterator_of dec k ns ≡ some i
      → n.key ≡ k
      → n.iterator ≡ i
      → (next : ℕ) → i < next
      → All (λ m. m.iterator < next) ns
      → IsDistinct dec (n ∷ erase_at i ns)
        × ((j : K) → iterator_of dec j (n ∷ erase_at i ns) ≡ iterator_of dec j ns)
        × All (λ m. m.iterator < next) (n ∷ erase_at i ns)
        × (view (n ∷ erase_at i ns) ≡ (k, n.value) ∷ without dec k (view ns))
  unfolding iterator_of view
  spliced k i n ns d h e f next b a = (
    (
      rw f (erased_gone dec i ns d),
      ground (arith, e, iterator_of-erase_at dec k k i ns d h),
      erase_at-IsDistinct dec i ns d,
    ),
    (λ j. ground (arith, e, f, h, iterator_of-erase_at dec k j i ns d h)),
    (rw f b, erase_at-All dec (λ m. m.iterator < next) i ns a),
    ground (arith, e, view-erase_at dec k i ns d h),
  )

  splice_front-some :
      (i : ℕ) (n : Node K V) (ns : List (Node K V))
      → node_at i ns ≡ some n
      → splice_front i ns ≡ n ∷ erase_at i ns
  unfolding splice_front
  splice_front-some i n ns h = rw (h, splice_front) refl

  pub get-refines :
      (k : K) (c : LruCache K V)
      → IsLinked dec c
      → let (c', o) = get dec k c in
        IsLinked dec c' × ((view c'.list, o) ≡ Spec.get dec k (view c.list))
  unfolding get Spec.get
  get-refines k c l = elim (Option-cases (lookup dec k c.map)) [
    | inl e ↦
        rw (e, get)
          (l, ground (arith, lookup-view-none dec k c.list (ground (arith, e, l.linked k))))
    | inr (i, e) ↦
        let h : iterator_of dec k c.list ≡ some i = ground (arith, e, l.linked k) in
        let (n, p, q, r, v) = lookup-view dec k i c.list l.distinct h in
        let (d, same, a, w) =
          spliced k i n c.list l.distinct h q r c.next
            (iterator_of-below dec k i c.next c.list l.fresh h) l.fresh in
        rw (e, get, splice_front-some i n c.list p, p)
          (
            record { linked = λ j. l.linked j ∙ sym (same j); distinct = d; fresh = a },
            ground (arith, v, w),
          )
  ]

  pub remove-refines :
      (k : K) (c : LruCache K V)
      → IsLinked dec c
      → IsLinked dec (remove dec k c) × (view (remove dec k c).list ≡ without dec k (view c.list))
  unfolding remove
  remove-refines k c l = elim (Option-cases (lookup dec k c.map)) [
    | inl e ↦ rw (e, remove) (l, sym (without-absent dec k c.list (ground (arith, e, l.linked k))))
    | inr (i, e) ↦
        let h : iterator_of dec k c.list ≡ some i = ground (arith, e, l.linked k) in
        rw (e, remove)
          (
            record {
              linked = λ j. ground (
                arith,
                lookup-erase dec k j c.map,
                l.linked j,
                iterator_of-erase_at dec k j i c.list l.distinct h,
              );
              distinct = erase_at-IsDistinct dec i c.list l.distinct;
              fresh = erase_at-All dec (λ n. n.iterator < c.next) i c.list l.fresh;
            },
            view-erase_at dec k i c.list l.distinct h,
          )
  ]

  -- A key that the map does not hold.
  insert_front-IsLinked :
      (k : K) (v : V) (c : LruCache K V)
      → IsLinked dec c
      → lookup dec k c.map ≡ none
      → IsLinked dec (insert_front dec k v c)
  unfolding insert_front iterator_of
  insert_front-IsLinked k v c l h = record {
    linked = λ j. ground (arith, lookup-assign dec k j c.next c.map, l.linked j);
    distinct = (node_at-fresh dec c.next c.list l.fresh, ground (arith, h, l.linked k), l.distinct);
    fresh = (omega arith, All-later dec c.next c.list l.fresh);
  }

  evict-refines :
      (c : LruCache K V) (n : Node K V) (rest : List (Node K V))
      → IsLinked dec c
      → pop_back c.list ≡ some (n, rest)
      → IsLinked dec (record c { list = rest; map = erase dec n.key c.map })
        × (drop_last (view c.list) ≡ some (view rest))
  evict-refines c n rest l h =
      let (v, d, q, m, a) = pop_back-some dec c.list n rest h l.distinct in
      (
        record {
          linked = λ j. ground (arith, lookup-erase dec n.key j c.map, l.linked j, q j);
          distinct = d;
          fresh = a c.next l.fresh;
        },
        v,
      )

  pub get-capacity : (k : K) (c : LruCache K V) → (get dec k c).0.capacity ≡ c.capacity
  unfolding get
  get-capacity k c = ground arith

  pub remove-capacity : (k : K) (c : LruCache K V) → (remove dec k c).capacity ≡ c.capacity
  unfolding remove
  remove-capacity k c = ground arith

  -- What `put` may come to, beside what the specification says.
  abbrev pub PutRefines : K → V → LruCache K V → Option (LruCache K V) → Type 0
  PutRefines k v c none = Spec.put dec c.capacity k v (view c.list) ≡ none
  PutRefines k v c (some c') =
      IsLinked dec c'
      × (c'.capacity ≡ c.capacity)
      × (Spec.put dec c.capacity k v (view c.list) ≡ some (view c'.list))

  put-full :
      (k : K) (v : V) (c : LruCache K V)
      → IsLinked dec c
      → lookup dec k c.map ≡ none
      → lookup dec k (view c.list) ≡ none
      → leb c.capacity (length c.list) ≡ true
      → (o : Option (Node K V × List (Node K V))) → pop_back c.list ≡ o
      → PutRefines k v c (put dec k v c)
  unfolding put evict Spec.put view insert_front
  put-full k v c l e w f none h =
      rw (e, put, f, h) (ground (arith, w, f, length-view dec c.list, pop_back-none dec c.list h))
  put-full k v c l e w f (some (n, rest)) h =
      let (l', d) = evict-refines c n rest l h in
      rw (e, put, f, h)
        (
          insert_front-IsLinked k v (record c { list = rest; map = erase dec n.key c.map }) l'
              (ground (arith, e, lookup-erase dec n.key k c.map)),
          refl,
          ground (arith, w, f, length-view dec c.list, d),
        )

  pub put-refines :
      (k : K) (v : V) (c : LruCache K V) → IsLinked dec c → PutRefines k v c (put dec k v c)
  unfolding put Spec.put view insert_front
  put-refines k v c l = elim (Option-cases (lookup dec k c.map)) [
    | inl e ↦
        let w = lookup-view-none dec k c.list (ground (arith, e, l.linked k)) in
        elim (Bool-cases (leb c.capacity (length c.list))) [
          | inl f ↦ put-full k v c l e w f _ refl
          | inr f ↦
              rw (e, put, f)
                (
                  insert_front-IsLinked k v c l e,
                  refl,
                  ground (arith, w, f, length-view dec c.list),
                )
        ]
    | inr (i, e) ↦
        let h : iterator_of dec k c.list ≡ some i = ground (arith, e, l.linked k) in
        let (n, p, q, r, old) = lookup-view dec k i c.list l.distinct h in
        let n' = record n { value = v } in
        let (d, same, a, w) =
          spliced k i n' c.list l.distinct h q r c.next
            (iterator_of-below dec k i c.next c.list l.fresh h) l.fresh in
        let moved : splice_front i (write_at i v c.list) ≡ n' ∷ erase_at i c.list =
          splice_front-some i n' (write_at i v c.list) (node_at-write_at dec i v c.list n p)
          ∙ ap (λ ns. n' ∷ ns) (erase_at-write_at dec i v c.list) in
        rw (e, put, moved)
          (
            record { linked = λ j. l.linked j ∙ sym (same j); distinct = d; fresh = a },
            refl,
            ground (arith, old, w),
          )
  ]

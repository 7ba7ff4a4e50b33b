-- ===== src/Cache/LruCache/Run.antt =====
-- Runs of the methods of `LruCache` and of its specification.
use anychat_sdk.Prelude.{
  ℕ, ◌<◌, ◌≡◌, ◌≢◌, refl, inl, inr, arith, List, [], ◌∷◌, Option, none, some, Option-cases,
}
use anychat_sdk.Prelude.Dict.{lookup}
use anychat_sdk.Cache.LruCache.Spec as Spec
use anychat_sdk.Cache.LruCache.Spec.{without, drop_last}
use anychat_sdk.Cache.LruCache.{LruCache, create, get, remove, put, clear}
use anychat_sdk.Cache.LruCache.Nodes.{view, iterator_of}
use anychat_sdk.Cache.LruCache.Refinement.{
  IsLinked, create-IsLinked, get-refines, remove-refines, put-refines, get-capacity,
  remove-capacity,
}

-- The methods that change the cache or answer.
pub data Call (K V : Type 0) : Type 0 where
  gets removes : K → Call K V
  puts : K → V → Call K V
  clears : Call K V

module _ {K V : Type 0} (dec : Discrete K) where
  -- The answers of the calls of `get`, in their order; none where a call of `put` is undefined.
  unfoldable pub answers : List (Call K V) → LruCache K V → Option (List (Option V))
  answers [] c = some []
  answers (gets k ∷ as') c =
      let (c', o) = get dec k c in elim (answers as' c') [ none ↦ none | some os ↦ some (o ∷ os) ]
  answers (removes k ∷ as') c = answers as' (remove dec k c)
  answers (puts k v ∷ as') c = elim (put dec k v c) [ none ↦ none | some c' ↦ answers as' c' ]
  answers (clears ∷ as') c = answers as' (clear c)

  -- The same of the specification.
  unfoldable pub spec_answers : ℕ → List (Call K V) → List (K × V) → Option (List (Option V))
  spec_answers capacity [] es = some []
  spec_answers capacity (gets k ∷ as') es =
      let (es', o) = Spec.get dec k es in
      elim (spec_answers capacity as' es') [ none ↦ none | some os ↦ some (o ∷ os) ]
  spec_answers capacity (removes k ∷ as') es = spec_answers capacity as' (without dec k es)
  spec_answers capacity (puts k v ∷ as') es = elim (Spec.put dec capacity k v es) [
    | none ↦ none
    | some es' ↦ spec_answers capacity as' es'
  ]
  spec_answers capacity (clears ∷ as') es = spec_answers capacity as' []

  clear-IsLinked : (c : LruCache K V) → IsLinked dec c → IsLinked dec (clear c)
  unfolding clear lookup iterator_of
  clear-IsLinked c l = record { linked = λ k. refl; distinct = tt; fresh = tt }

  refines_by :
      (as' : List (Call K V)) (c : LruCache K V)
      → IsLinked dec c
      → answers as' c ≡ spec_answers c.capacity as' (view c.list)
  unfolding answers spec_answers clear view
  refines_by [] c l = refl
  refines_by (gets k ∷ as') c l =
      let (l', e) = get-refines dec k c l in
      ground (arith, e, get-capacity dec k c, refines_by as' (get dec k c).0 l')
  refines_by (removes k ∷ as') c l =
      let (l', e) = remove-refines dec k c l in
      ground (arith, e, remove-capacity dec k c, refines_by as' (remove dec k c) l')
  refines_by (puts k v ∷ as') c l = elim (Option-cases (put dec k v c)) [
    | inl e ↦ ground (arith, e, rw e at (put-refines dec k v c l))
    | inr (c', e) ↦
        let (l', same, w) = rw e at (put-refines dec k v c l) in
        ground (arith, e, same, w, refines_by as' c' l')
  ]
  refines_by (clears ∷ as') c l = refines_by as' (clear c) (clear-IsLinked c l)

  put-total :
      (capacity : ℕ) (k : K) (v : V) (es : List (K × V))
      → 0 < capacity
      → Spec.put dec capacity k v es ≢ none
  unfolding Spec.put drop_last
  put-total capacity k v [] h = ground arith
  put-total capacity k v (e ∷ es) h = ground arith

  answers_total :
      (capacity : ℕ) (as' : List (Call K V)) (es : List (K × V))
      → 0 < capacity
      → spec_answers capacity as' es ≢ none
  unfolding spec_answers
  answers_total capacity [] es h = cc
  answers_total capacity (gets k ∷ as') es h =
      ground (arith, answers_total capacity as' (Spec.get dec k es).0 h)
  answers_total capacity (removes k ∷ as') es h = answers_total capacity as' (without dec k es) h
  answers_total capacity (puts k v ∷ as') es h =
      elim (Option-cases (Spec.put dec capacity k v es)) [
        | inl e ↦ absurd (put-total capacity k v es h e)
        | inr (es', e) ↦ ground (arith, e, answers_total capacity as' es' h)
      ]
  answers_total capacity (clears ∷ as') es h = answers_total capacity as' [] h

  -- Whatever is called on a new cache, the calls of `get` answer what they answer on a list of keys
  -- and values with the most recently used first, from which a new key in a full cache evicts the
  -- last; and if the capacity is positive no call is undefined.
  pub lru_refines :
      (capacity : ℕ) (as' : List (Call K V))
      → 0 < capacity
      → (answers as' (create capacity) ≡ spec_answers capacity as' [])
        × (answers as' (create capacity) ≢ none)
  unfolding create view
  lru_refines capacity as' h =
      let same = refines_by as' (create capacity) (create-IsLinked dec capacity) in
      (same, ground (arith, same, answers_total capacity as' [] h))

-- ===== src/Cache/LruCache.antt =====
-- core/src/cache/lru_cache.h. A node of the list bears a number, which stands for the iterator that
-- the map holds; the front of the list is the most recently used. Each method runs under the mutex,
-- so it is one step.
pub mod Spec
pub mod Nodes
pub mod Last
pub mod Refinement
pub mod Run
use anychat_sdk.Prelude.{
  ℕ, suc, Bool, true, false, not, List, [], ◌∷◌, Option, none, some, length, leb, ◌==◌,
  if◌then◌else◌, ite,
}
use anychat_sdk.Prelude.Dict.{lookup, assign, erase}

pub record Node (K V : Type 0) : Type 0 where
  pub iterator : ℕ
  pub key : K
  pub value : V

-- `next` is an iterator that no node has had.
pub record LruCache (K V : Type 0) : Type 0 where
  pub capacity : ℕ
  pub next : ℕ
  pub list : List (Node K V)
  pub map : List (K × ℕ)

module _ {K V : Type 0} where
  unfoldable pub create : ℕ → LruCache K V
  create capacity = record { capacity = capacity; next = 0; list = []; map = [] }

  -- The node that an iterator points to.
  unfoldable pub node_at : ℕ → List (Node K V) → Option (Node K V)
  node_at i [] = none
  node_at i (n ∷ ns) = if n.iterator == i then some n else node_at i ns

  -- `list_.erase(it)`
  unfoldable pub erase_at : ℕ → List (Node K V) → List (Node K V)
  erase_at i [] = []
  erase_at i (n ∷ ns) = if n.iterator == i then ns else n ∷ erase_at i ns

  -- `list_.splice(list_.begin(), list_, it)`
  unfoldable pub splice_front : ℕ → List (Node K V) → List (Node K V)
  unfolding node_at erase_at
  splice_front i ns = elim (node_at i ns) [ none ↦ ns | some n ↦ n ∷ erase_at i ns ]

  -- `it->second->second = value`
  unfoldable pub write_at : ℕ → V → List (Node K V) → List (Node K V)
  write_at i v [] = []
  write_at i v (n ∷ ns) =
      if n.iterator == i then record n { value = v } ∷ ns else n ∷ write_at i v ns

  abbrev pub value_of : Option (Node K V) → Option V
  value_of none = none
  value_of (some n) = some n.value

  -- `list_.back()` and `list_.pop_back()`; none where the list is empty.
  unfoldable pub pop_back : List (Node K V) → Option (Node K V × List (Node K V))
  pop_back [] = none
  pop_back (n ∷ ns) = elim (pop_back ns) [
    | none ↦ some (n, [])
    | some (last, rest) ↦ some (last, n ∷ rest)
  ]

  unfoldable pub size : LruCache K V → ℕ
  size c = length c.list

  unfoldable pub clear : LruCache K V → LruCache K V
  clear c = record c { list = []; map = [] }

module _ {K V : Type 0} (dec : Discrete K) where
  unfoldable pub contains : K → LruCache K V → Bool
  contains k c = elim (lookup dec k c.map) [ none ↦ false | some i ↦ true ]

  unfoldable pub get : K → LruCache K V → LruCache K V × Option V
  unfolding splice_front
  get k c = elim (lookup dec k c.map) [
    | none ↦ (c, none)
    | some i ↦ (record c { list = splice_front i c.list }, value_of (node_at i c.list))
  ]

  unfoldable pub remove : K → LruCache K V → LruCache K V
  unfolding erase_at
  remove k c = elim (lookup dec k c.map) [
    | none ↦ c
    | some i ↦ record c { list = erase_at i c.list; map = erase dec k c.map }
  ]

  -- `list_.emplace_front` and `map_[key] = list_.begin()`
  unfoldable pub insert_front : K → V → LruCache K V → LruCache K V
  insert_front k v c = record c {
    next = suc c.next;
    list = record { iterator = c.next; key = k; value = v } ∷ c.list;
    map = assign dec k c.next c.map;
  }

  -- The eviction; none where `list_.back()` is called on an empty list.
  unfoldable pub evict : LruCache K V → Option (LruCache K V)
  unfolding pop_back
  evict c = elim (pop_back c.list) [
    | none ↦ none
    | some (last, rest) ↦ some (record c { list = rest; map = erase dec last.key c.map })
  ]

  unfoldable pub put : K → V → LruCache K V → Option (LruCache K V)
  unfolding splice_front write_at insert_front evict
  put k v c = elim (lookup dec k c.map) [
    | some i ↦ some (record c { list = splice_front i (write_at i v c.list) })
    | none ↦
        if leb c.capacity (length c.list)
        then elim (evict c) [ none ↦ none | some c' ↦ some (insert_front k v c') ]
        else some (insert_front k v c)
  ]

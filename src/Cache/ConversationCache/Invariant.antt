-- ===== src/Cache/ConversationCache/Invariant.antt =====
-- Every operation of the conversation cache keeps its order, and keeps the ids distinct.
use anychat_sdk.Prelude.{
  ◌≤◌, String, false, ℤ, ◌≡◌, refl, inl, inr, arith, List, [], ◌∷◌, ◌++◌, none, some, All, count_if,
  count_if-append, Option-cases,
}
use anychat_sdk.Prelude.Sort.{Sorted, count_if-stable_sort}
use anychat_sdk.Types.{Conversation}
use anychat_sdk.Cache.ConversationCache.{
  ConversationCache, comes_before, sort, set_all, has_id, change_first, upsert, remove,
  increment_unread, clear_unread, set_last_message, clear, bump_unread, zero_unread,
  with_last_message,
}
use anychat_sdk.Cache.ConversationCache.Order.{sort-Sorted, SameRank}

pub record IsValid (cs : ConversationCache) : Type 0 where
  pub ordered : Sorted comes_before cs
  pub distinct : (k : String) → count_if (has_id k) cs ≤ 1

sort-IsValid :
    (cs : List Conversation) → ((k : String) → count_if (has_id k) cs ≤ 1) → IsValid (sort cs)
unfolding sort
sort-IsValid cs h = record {
  ordered = sort-Sorted cs;
  distinct = λ k. rw (count_if-stable_sort comes_before (has_id k) cs) (h k);
}

-- A full replacement by conversations with distinct ids gives a valid cache.
pub set_all-IsValid :
    (cs : List Conversation) → ((k : String) → count_if (has_id k) cs ≤ 1) → IsValid (set_all cs)
unfolding set_all
set_all-IsValid = sort-IsValid

not_before_SameRank :
    (d c : Conversation)
    → SameRank d c
    → (cs : List Conversation) → All (λ y. comes_before y c ≡ false) cs
    → All (λ y. comes_before y d ≡ false) cs
unfolding comes_before
not_before_SameRank d c same [] a = tt
not_before_SameRank d c same (y ∷ ys) a =
    (ground (arith, same, a.0), not_before_SameRank d c same ys a.1)

module _ (k : String) (f : Conversation → Conversation) where
  -- What a loop that changes one conversation does to the number of those with an id.
  pub count_if-change_first :
      (j : String) (cs : List Conversation) {cs' : List Conversation}
      → ((c : Conversation) → c.conv_id ≡ k → (f c).conv_id ≡ k)
      → change_first k f cs ≡ some cs'
      → count_if (has_id j) cs' ≡ count_if (has_id j) cs
  unfolding change_first
  count_if-change_first j [] keeps h = cc
  count_if-change_first j (c ∷ cs) {cs'} keeps h = elim (Option-cases (change_first k f cs)) [
    | inl e ↦ ground (arith, keeps c, e)
    | inr (r, e) ↦ ground (arith, keeps c, e, count_if-change_first j cs keeps e)
  ]

  pub change_first-none :
      (cs : List Conversation) → change_first k f cs ≡ none → count_if (has_id k) cs ≡ 0
  unfolding change_first
  change_first-none [] h = refl
  change_first-none (c ∷ cs) h = elim (Option-cases (change_first k f cs)) [
    | inl e ↦ ground (arith, e, change_first-none cs e)
    | inr (r, e) ↦ ground (arith, e)
  ]

  module _ (same : (c : Conversation) → SameRank (f c) c) where
    not_before-change_first :
        (x : Conversation) (cs : List Conversation) {cs' : List Conversation}
        → change_first k f cs ≡ some cs'
        → All (λ y. comes_before y x ≡ false) cs
        → All (λ y. comes_before y x ≡ false) cs'
    unfolding change_first comes_before
    not_before-change_first x [] h a = cc
    not_before-change_first x (c ∷ cs) h a = elim (Option-cases (change_first k f cs)) [
      | inl e ↦ ground (arith, same c, e)
      | inr (r, e) ↦ ground (arith, same c, e, not_before-change_first x cs e a.1)
    ]

    -- A change of fields that the comparator does not read keeps the order.
    Sorted-change_first :
        (cs : List Conversation) {cs' : List Conversation}
        → change_first k f cs ≡ some cs'
        → Sorted comes_before cs
        → Sorted comes_before cs'
    unfolding change_first
    Sorted-change_first [] h s = cc
    Sorted-change_first (c ∷ cs) h s = elim (Option-cases (change_first k f cs)) [
      | inl e ↦ ground (arith, e, not_before_SameRank (f c) c (same c) cs s.0)
      | inr (r, e) ↦ ground (
        arith,
        e,
        not_before_SameRank (f c) c (same c) cs s.0,
        not_before-change_first c cs e s.0,
        Sorted-change_first cs e s.1,
      )
    ]

change_first-IsValid :
    (k : String) (f : Conversation → Conversation)
    → ((c : Conversation) → c.conv_id ≡ k → (f c).conv_id ≡ k)
    → ((c : Conversation) → SameRank (f c) c)
    → (cs : ConversationCache) {cs' : ConversationCache} → change_first k f cs ≡ some cs'
    → IsValid cs
    → IsValid cs'
change_first-IsValid k f keeps same cs h v = record {
  ordered = Sorted-change_first k f same cs h v.ordered;
  distinct = λ j. rw (count_if-change_first k f j cs keeps h) (v.distinct j);
}

pub increment_unread-IsValid :
    (k : String) (cs : ConversationCache) → IsValid cs → IsValid (increment_unread k cs)
unfolding increment_unread
increment_unread-IsValid k cs v = elim (Option-cases (change_first k bump_unread cs)) [
  | inl e ↦ rw (e, increment_unread) v
  | inr (r, e) ↦
      rw (e, increment_unread)
        (change_first-IsValid k bump_unread (λ c h. ground arith) (λ c. ground arith) cs e v)
]

pub clear_unread-IsValid :
    (k : String) (cs : ConversationCache) → IsValid cs → IsValid (clear_unread k cs)
unfolding clear_unread
clear_unread-IsValid k cs v = elim (Option-cases (change_first k zero_unread cs)) [
  | inl e ↦ rw (e, clear_unread) v
  | inr (r, e) ↦
      rw (e, clear_unread)
        (change_first-IsValid k zero_unread (λ c h. h) (λ c. (refl, refl, refl)) cs e v)
]

pub set_last_message-IsValid :
    (k msg_id text : String) (t : ℤ) (cs : ConversationCache)
    → IsValid cs
    → IsValid (set_last_message k msg_id text t cs)
unfolding set_last_message
set_last_message-IsValid k msg_id text t cs v =
    let f = with_last_message msg_id text t in
    elim (Option-cases (change_first k f cs)) [
      | inl e ↦ rw (e, set_last_message) v
      | inr (r, e) ↦
          rw (e, set_last_message)
            (sort-IsValid r λ j. rw (count_if-change_first k f j cs (λ c h. h) e) (v.distinct j))
    ]

-- The ids that an insertion or an update leaves are distinct.
pub upsert-IsValid :
    (c : Conversation) (cs : ConversationCache) → IsValid cs → IsValid (upsert c cs)
unfolding upsert
upsert-IsValid c cs v = elim (Option-cases (change_first c.conv_id (λ _. c) cs)) [
  | inl e ↦
      rw (e, upsert)
        (sort-IsValid (cs ++ c ∷ []) λ j. ground (
          arith,
          count_if-append (has_id j) cs (c ∷ []),
          change_first-none c.conv_id (λ _. c) cs e,
          v.distinct j,
        ))
  | inr (r, e) ↦
      rw (e, upsert)
        (sort-IsValid r
          λ j. rw (count_if-change_first c.conv_id (λ _. c) j cs (λ _ _. refl) e) (v.distinct j))
]

not_before-remove :
    (k : String) (x : Conversation) (cs : List Conversation)
    → All (λ y. comes_before y x ≡ false) cs
    → All (λ y. comes_before y x ≡ false) (remove k cs)
unfolding remove
not_before-remove k x [] a = tt
not_before-remove k x (c ∷ cs) a = ground (arith, not_before-remove k x cs a.1)

Sorted-remove :
    (k : String) (cs : List Conversation)
    → Sorted comes_before cs
    → Sorted comes_before (remove k cs)
unfolding remove
Sorted-remove k [] s = tt
Sorted-remove k (c ∷ cs) s = ground (arith, not_before-remove k c cs s.0, Sorted-remove k cs s.1)

count_if-remove-le :
    (j k : String) (cs : List Conversation)
    → count_if (has_id j) (remove k cs) ≤ count_if (has_id j) cs
unfolding remove
count_if-remove-le j k [] = omega arith
count_if-remove-le j k (c ∷ cs) = ground (arith, count_if-remove-le j k cs)

pub remove-IsValid : (k : String) (cs : ConversationCache) → IsValid cs → IsValid (remove k cs)
remove-IsValid k cs v = record {
  ordered = Sorted-remove k cs v.ordered;
  distinct = λ j. omega (arith, count_if-remove-le j k cs, v.distinct j);
}

pub clear-IsValid : (cs : ConversationCache) → IsValid (clear cs)
unfolding clear
clear-IsValid cs = record { ordered = tt; distinct = λ _. omega arith }

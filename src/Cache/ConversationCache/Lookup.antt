-- ===== src/Cache/ConversationCache/Lookup.antt =====
-- What `get` finds after each operation of the conversation cache.
use anychat_sdk.Prelude.{
  ◌≤◌, String, Bool, true, false, ℤ, ◌≡◌, ◌≢◌, refl, ◌∙◌, inl, inr, arith, List, [], ◌∷◌, ◌++◌,
  Option, none, some, count_if, count_if-append, Option-cases, same_text, if◌then◌else◌,
}
use anychat_sdk.Prelude.Sort.{insert, stable_sort, count_if-stable_sort}
use anychat_sdk.Types.{Conversation}
use anychat_sdk.Cache.ConversationCache.{
  set_all, ConversationCache, comes_before, sort, has_id, change_first, upsert, remove, get,
  increment_unread, clear_unread, set_last_message, bump_unread, zero_unread, with_last_message,
}
use anychat_sdk.Cache.ConversationCache.Invariant.{
  IsValid, count_if-change_first, change_first-none,
}

get-insert :
    (k : String) (c : Conversation) (cs : List Conversation)
    → count_if (has_id k) (c ∷ cs) ≤ 1
    → get k (insert comes_before c cs) ≡ get k (c ∷ cs)
unfolding insert get
get-insert k c [] h = refl
get-insert k c (d ∷ cs) h = ground (arith, get-insert k c cs)

get-stable_sort :
    (k : String) (cs : List Conversation)
    → count_if (has_id k) cs ≤ 1
    → get k (stable_sort comes_before cs) ≡ get k cs
unfolding stable_sort get
get-stable_sort k [] h = refl
get-stable_sort k (c ∷ cs) h =
    let sorted = count_if-stable_sort comes_before (has_id k) cs in
    ground (arith, sorted, get-insert k c (stable_sort comes_before cs), get-stable_sort k cs)

-- Sorting conversations with distinct ids hides none.
get-sort :
    (k : String) (cs : List Conversation) → count_if (has_id k) cs ≤ 1 → get k (sort cs) ≡ get k cs
unfolding sort
get-sort = get-stable_sort

-- A full replacement by conversations with distinct ids is found as it was given.
pub get-set_all :
    (k : String) (cs : List Conversation)
    → count_if (has_id k) cs ≤ 1
    → get k (set_all cs) ≡ get k cs
unfolding set_all
get-set_all = get-sort

-- The change that a call makes to what is found.
abbrev pub changed :
    Bool → (Conversation → Conversation) → Option Conversation → Option Conversation
changed true f (some c) = some (f c)
changed true f none = none
changed false f o = o

get-append :
    (k : String) (cs ds : List Conversation)
    → get k (cs ++ ds) ≡ elim (get k cs) [ none ↦ get k ds | some c ↦ some c ]
unfolding get
get-append k [] ds = refl
get-append k (c ∷ cs) ds = ground (arith, get-append k cs ds)

get_absent : (k : String) (cs : List Conversation) → count_if (has_id k) cs ≡ 0 → get k cs ≡ none
unfolding get
get_absent k [] h = refl
get_absent k (c ∷ cs) h = ground (arith, get_absent k cs)

get-change_first :
    (k j : String) (f : Conversation → Conversation) (cs : List Conversation)
    {cs' : List Conversation}
    → ((c : Conversation) → c.conv_id ≡ k → (f c).conv_id ≡ k)
    → change_first k f cs ≡ some cs'
    → get j cs' ≡ changed (same_text k j) f (get j cs)
unfolding change_first get
get-change_first k j f [] keeps h = cc
get-change_first k j f (c ∷ cs) keeps h = elim (Option-cases (change_first k f cs)) [
  | inl e ↦ ground (arith, keeps c, e)
  | inr (r, e) ↦ ground (arith, keeps c, e, get-change_first k j f cs keeps e)
]

-- A loop that changes a conversation has met one.
change_first-some :
    (k : String) (f : Conversation → Conversation) (cs : List Conversation)
    {cs' : List Conversation}
    → change_first k f cs ≡ some cs'
    → get k cs ≢ none
unfolding change_first get
change_first-some k f [] h = λ e. cc
change_first-some k f (c ∷ cs) h = λ g. elim (Option-cases (change_first k f cs)) [
  | inl e ↦ ground (arith, e)
  | inr (r, e) ↦ ground (arith, e, change_first-some k f cs e)
]

-- The conversation found under an id after `upsert` is the new one under its own id, and what was
-- there under any other.
pub get-upsert :
    (c : Conversation) (cs : ConversationCache) (j : String)
    → IsValid cs
    → get j (upsert c cs) ≡ (if same_text c.conv_id j then some c else get j cs)
unfolding upsert get
get-upsert c cs j v = elim (Option-cases (change_first c.conv_id (λ _. c) cs)) [
  | inl e ↦
      let absent = change_first-none c.conv_id (λ _. c) cs e in
      let once = count_if-append (has_id j) cs (c ∷ []) in
      rw (e, upsert)
        (ground (
          arith,
          absent,
          once,
          v.distinct j,
          get-sort j (cs ++ c ∷ []),
          get-append j cs (c ∷ []),
          get_absent j cs,
        ))
  | inr (r, e) ↦
      let same = count_if-change_first c.conv_id (λ _. c) j cs (λ _ _. refl) e in
      rw (e, upsert)
        (ground (
          arith,
          same,
          v.distinct j,
          get-sort j r,
          get-change_first c.conv_id j (λ _. c) cs (λ _ _. refl) e,
          change_first-some c.conv_id (λ _. c) cs e,
        ))
]

-- After `remove` its id is not found, and the others are as they were.
pub get-remove :
    (k j : String) (cs : ConversationCache)
    → get j (remove k cs) ≡ (if same_text k j then none else get j cs)
unfolding remove get
get-remove k j [] = ground arith
get-remove k j (c ∷ cs) = ground (arith, get-remove k j cs)

get_unchanged :
    (k j : String) (f : Conversation → Conversation) (cs : List Conversation)
    → change_first k f cs ≡ none
    → get j cs ≡ changed (same_text k j) f (get j cs)
get_unchanged k j f cs e = ground (arith, get_absent k cs, change_first-none k f cs e)

-- `increment_unread` adds one to the unread count of an unmuted conversation with the id, and
-- changes nothing else that `get` finds.
get-increment_unread :
    (k j : String) (cs : ConversationCache)
    → get j (increment_unread k cs) ≡ changed (same_text k j) bump_unread (get j cs)
unfolding increment_unread
get-increment_unread k j cs = elim (Option-cases (change_first k bump_unread cs)) [
  | inl e ↦ rw (e, increment_unread) (get_unchanged k j bump_unread cs e)
  | inr (r, e) ↦
      rw (e, increment_unread) (get-change_first k j bump_unread cs (λ c h. ground arith) e)
]

-- `clear_unread` sets the unread count of the conversation with the id to 0, and changes nothing
-- else that `get` finds.
pub get-clear_unread :
    (k j : String) (cs : ConversationCache)
    → get j (clear_unread k cs) ≡ changed (same_text k j) zero_unread (get j cs)
unfolding clear_unread
get-clear_unread k j cs = elim (Option-cases (change_first k zero_unread cs)) [
  | inl e ↦ rw (e, clear_unread) (get_unchanged k j zero_unread cs e)
  | inr (r, e) ↦ rw (e, clear_unread) (get-change_first k j zero_unread cs (λ c h. h) e)
]

-- On a valid cache `set_last_message` sets the three fields of the conversation with the id, and
-- changes nothing else that `get` finds.
get-set_last_message :
    (k j msg_id text : String) (t : ℤ) (cs : ConversationCache)
    → IsValid cs
    → get j (set_last_message k msg_id text t cs)
      ≡ changed (same_text k j) (with_last_message msg_id text t) (get j cs)
unfolding set_last_message
get-set_last_message k j msg_id text t cs v =
    let f = with_last_message msg_id text t in
    elim (Option-cases (change_first k f cs)) [
      | inl e ↦ rw (e, set_last_message) (get_unchanged k j f cs e)
      | inr (r, e) ↦
          rw (e, set_last_message)
            (get-sort j r (omega (arith, count_if-change_first k f j cs (λ c h. h) e, v.distinct j))
              ∙ get-change_first k j f cs (λ c h. h) e)
    ]

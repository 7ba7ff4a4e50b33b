-- ===== src/Cache/ConversationCache/Order.antt =====
-- The order of the conversations: the comparator, and what each operation does to it.
use anychat_sdk.Prelude.{true, false, ◌≡◌, arith, List}
use anychat_sdk.Prelude.Sort.{IsStrictWeak, Sorted, stable_sort-Sorted}
use anychat_sdk.Types.{Conversation}
use anychat_sdk.Cache.ConversationCache.{comes_before, sort}

asym : (a b : Conversation) → comes_before a b ≡ true → comes_before b a ≡ false
unfolding comes_before
asym a b h = ground arith

not_less_trans :
    (a b c : Conversation)
    → comes_before b a ≡ false
    → comes_before c b ≡ false
    → comes_before c a ≡ false
unfolding comes_before
not_less_trans a b c h k = ground arith

-- The comparator is a strict weak order, as `std::stable_sort` asks.
comes_before-IsStrictWeak : IsStrictWeak comes_before
comes_before-IsStrictWeak = record { asym = asym; not_less_trans = not_less_trans }

pub sort-Sorted : (cs : List Conversation) → Sorted comes_before (sort cs)
unfolding sort
sort-Sorted cs = stable_sort-Sorted comes_before-IsStrictWeak cs

-- `c` and `d` stand alike in every comparison.
abbrev pub SameRank : Conversation → Conversation → Type 0
SameRank c d =
    (c.is_pinned ≡ d.is_pinned)
    × (c.pin_time_ms ≡ d.pin_time_ms)
    × (c.last_msg_time_ms ≡ d.last_msg_time_ms)

-- ===== src/Cache/ConversationCache.antt =====
-- core/src/cache/conversation_cache.h: the conversations in display order. Each method runs under
-- the mutex, so it is one step.
pub mod Order
pub mod Invariant
pub mod Lookup
pub mod Run
use anychat_sdk.Prelude.{
  String, Bool, true, false, not, ◌&&◌, ◌||◌, ℤ, pos, inc32, ltb_ℤ, if◌then◌else◌, List, [], ◌∷◌,
  ◌++◌, Option, none, some, same_text,
}
use anychat_sdk.Prelude.Sort.{stable_sort}
use anychat_sdk.Types.{Conversation}

-- The comparator of `sort`: pinned first by `pin_time_ms`, the others by `last_msg_time_ms`, both
-- falling.
unfoldable pub comes_before : Conversation → Conversation → Bool
comes_before a b =
    if a.is_pinned
    then (if b.is_pinned then ltb_ℤ b.pin_time_ms a.pin_time_ms else true)
    else (if b.is_pinned then false else ltb_ℤ b.last_msg_time_ms a.last_msg_time_ms)

-- `convs_`
abbrev pub ConversationCache : Type 0
ConversationCache = List Conversation

unfoldable pub sort : List Conversation → List Conversation
sort = stable_sort comes_before

unfoldable pub set_all : List Conversation → ConversationCache
unfolding sort
set_all convs = sort convs

abbrev pub has_id : String → Conversation → Bool
has_id k c = same_text c.conv_id k

-- A loop over `convs_` that changes the first conversation with the id and returns; `none` if it
-- meets none.
unfoldable pub change_first :
    String → (Conversation → Conversation) → List Conversation → Option (List Conversation)
change_first k f [] = none
change_first k f (c ∷ cs) =
    if has_id k c
    then some (f c ∷ cs)
    else elim (change_first k f cs) [ none ↦ none | some cs' ↦ some (c ∷ cs') ]

unfoldable pub upsert : Conversation → ConversationCache → ConversationCache
unfolding sort
upsert conv convs = elim (change_first conv.conv_id (λ _. conv) convs) [
  | some convs' ↦ sort convs'
  | none ↦ sort (convs ++ conv ∷ [])
]

unfoldable pub remove : String → ConversationCache → ConversationCache
remove k [] = []
remove k (c ∷ cs) = if has_id k c then remove k cs else c ∷ remove k cs

abbrev pub get_all : ConversationCache → List Conversation
get_all convs = convs

unfoldable pub get : String → ConversationCache → Option Conversation
get k [] = none
get k (c ∷ cs) = if has_id k c then some c else get k cs

abbrev pub bump_unread : Conversation → Conversation
bump_unread c = if c.is_muted then c else record c { unread_count = inc32 c.unread_count }

unfoldable pub increment_unread : String → ConversationCache → ConversationCache
increment_unread k convs = elim (change_first k bump_unread convs) [
  | some convs' ↦ convs'
  | none ↦ convs
]

abbrev pub zero_unread : Conversation → Conversation
zero_unread c = record c { unread_count = pos 0 }

unfoldable pub clear_unread : String → ConversationCache → ConversationCache
clear_unread k convs = elim (change_first k zero_unread convs) [
  | some convs' ↦ convs'
  | none ↦ convs
]

abbrev pub with_last_message : String → String → ℤ → Conversation → Conversation
with_last_message msg_id text timestamp_ms c = record c {
  last_msg_id = msg_id;
  last_msg_text = text;
  last_msg_time_ms = timestamp_ms;
}

unfoldable pub set_last_message :
    String → String → String → ℤ → ConversationCache → ConversationCache
unfolding sort
set_last_message k msg_id text timestamp_ms convs =
    elim (change_first k (with_last_message msg_id text timestamp_ms) convs) [
      | some convs' ↦ sort convs'
      | none ↦ convs
    ]

unfoldable pub clear : ConversationCache → ConversationCache
clear convs = []

-- ===== src/Cache/ConversationCache/Run.antt =====
-- The calls that the conversation cache receives, and runs of them.
use anychat_sdk.Prelude.{◌≤◌, String, ℤ, List, [], ◌∷◌, All, count_if}
use anychat_sdk.Types.{Conversation}
use anychat_sdk.Cache.ConversationCache.{
  ConversationCache, set_all, has_id, upsert, remove, increment_unread, clear_unread,
  set_last_message, clear,
}
use anychat_sdk.Cache.ConversationCache.Invariant.{
  IsValid, set_all-IsValid, upsert-IsValid, remove-IsValid, increment_unread-IsValid,
  clear_unread-IsValid, set_last_message-IsValid, clear-IsValid,
}

-- A call of a method that changes the cache.
pub data Call : Type 0 where
  sets_all : List Conversation → Call
  upserts : Conversation → Call
  removes : String → Call
  increments_unread : String → Call
  clears_unread : String → Call
  sets_last_message : String → String → String → ℤ → Call
  clears : Call

unfoldable pub step : Call → ConversationCache → ConversationCache
step (sets_all convs) cs = set_all convs
step (upserts conv) cs = upsert conv cs
step (removes k) cs = remove k cs
step (increments_unread k) cs = increment_unread k cs
step (clears_unread k) cs = clear_unread k cs
step (sets_last_message k msg_id text t) cs = set_last_message k msg_id text t cs
step clears cs = clear cs

unfoldable pub run : List Call → ConversationCache → ConversationCache
run [] cs = cs
run (a ∷ as') cs = run as' (step a cs)

-- A full sync brings each conversation once.
abbrev pub Admissible : Call → Type 0
Admissible (sets_all convs) = (k : String) → count_if (has_id k) convs ≤ 1
Admissible _ = Unit

step-IsValid : (a : Call) (cs : ConversationCache) → Admissible a → IsValid cs → IsValid (step a cs)
unfolding step
step-IsValid (sets_all convs) cs h v = set_all-IsValid convs h
step-IsValid (upserts conv) cs h v = upsert-IsValid conv cs v
step-IsValid (removes k) cs h v = remove-IsValid k cs v
step-IsValid (increments_unread k) cs h v = increment_unread-IsValid k cs v
step-IsValid (clears_unread k) cs h v = clear_unread-IsValid k cs v
step-IsValid (sets_last_message k i text t) cs h v = set_last_message-IsValid k i text t cs v
step-IsValid clears cs h v = clear-IsValid cs

-- After any calls on a valid cache, whose full replacements bring each id at most once, the
-- conversations stand in display order and no id stands twice.
pub run-IsValid :
    (as' : List Call) (cs : ConversationCache)
    → All Admissible as'
    → IsValid cs
    → IsValid (run as' cs)
unfolding run
run-IsValid [] cs h v = v
run-IsValid (a ∷ as') cs h v = run-IsValid as' (step a cs) h.1 (step-IsValid a cs h.0 v)

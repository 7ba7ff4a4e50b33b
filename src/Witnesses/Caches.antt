-- ===== src/Witnesses/Caches.antt =====
-- The theorems on the caches of core/src/cache at concrete inputs.
use anychat_sdk.Prelude.{
  ℕ, ◌+◌, ◌<◌, String, Bool, true, false, pos, ltb, ◌≡◌, refl, arith, length, All, count_if, List,
  [], ◌∷◌, ◌++◌, if◌then◌else◌,
}
use anychat_sdk.Prelude.Text.{text_dec}
use anychat_sdk.Prelude.Dict.{lookup, assign}
use anychat_sdk.Prelude.Sort
use anychat_sdk.Prelude.Sort.{Sorter, stable_sort, stable_sorter}
use anychat_sdk.Types.{Message, Conversation, text, private}
use anychat_sdk.Cache.ConversationCache
use anychat_sdk.Cache.ConversationCache.Invariant as Conversations
use anychat_sdk.Cache.ConversationCache.Run as Runs
use anychat_sdk.Cache.MessageCache
use anychat_sdk.Cache.MessageCache.{seq_less, contains_id, bucket, back_seq}
use anychat_sdk.Cache.MessageCache.Invariant as Messages
use anychat_sdk.Cache.MessageCache.Invariant.{seq_less-IsStrictWeak}
use anychat_sdk.Cache.MessageCache.MaxSeq.{insert_drops_lowest}
use anychat_sdk.Cache.MessageCache.Update.{SameKeys}

abbrev talk : Conversation
talk = record {
  conv_id = "c1";
  conv_type = private;
  target_id = "alice";
  last_msg_id = "";
  last_msg_text = "";
  last_msg_time_ms = pos 10;
  unread_count = pos 2;
  is_pinned = false;
  is_muted = false;
  burn_after_reading = pos 0;
  auto_delete_duration = pos 0;
  pin_time_ms = pos 0;
  local_seq = pos 3;
  updated_at_ms = pos 10;
}

abbrev pinned : Conversation
pinned = record talk { conv_id = "c2"; is_pinned = true; pin_time_ms = pos 5 }

abbrev calls : List Runs.Call
calls =
    Runs.Call.upserts talk
    ∷ Runs.Call.upserts pinned
    ∷ Runs.Call.increments_unread "c1"
    ∷ Runs.Call.removes "c2"
    ∷ []

none-IsValid : Conversations.IsValid []
unfolding ConversationCache.clear
none-IsValid = Conversations.clear-IsValid []

run-IsValid_example : Conversations.IsValid (Runs.run calls [])
run-IsValid_example = Runs.run-IsValid calls [] (tt, (tt, (tt, (tt, tt)))) none-IsValid

abbrev sorter : Sorter seq_less
sorter = stable_sorter seq_less-IsStrictWeak

abbrev message : String → ℕ → Message
message i n = record {
  message_id = i;
  local_id = "";
  conv_id = "c1";
  sender_id = "alice";
  content_type = pos 1;
  type = text;
  content = "hello";
  seq = pos n;
  reply_to = "";
  timestamp_ms = pos 0;
  status = pos 0;
  send_state = pos 1;
  is_read = false;
}

abbrev two : MessageCache.MessageCache
two =
    MessageCache.insert sorter (message "a" 8)
      (MessageCache.insert sorter (message "b" 3) (MessageCache.new_cache 2))

one-IsValid :
    Messages.IsValid (MessageCache.insert sorter (message "b" 3) (MessageCache.new_cache 2))
one-IsValid =
    Messages.insert-IsValid sorter (message "b" 3) (MessageCache.new_cache 2)
      (Messages.new_cache-IsValid 2)

insert-IsValid_example : Messages.IsValid two
insert-IsValid_example =
    Messages.insert-IsValid sorter (message "a" 8)
      (MessageCache.insert sorter (message "b" 3) (MessageCache.new_cache 2)) one-IsValid

abbrev full : MessageCache.MessageCache
full = record { bucket_size = 2; buckets = ("c1", message "b" 3 ∷ message "a" 8 ∷ []) ∷ [] }

-- A message that is not in the bucket of `two`, which is full.
is_new : contains_id "n" (bucket two "c1") ≡ false
unfolding MessageCache.insert MessageCache.insert_in MessageCache.new_cache contains_id lookup
    assign text_dec stable_sort Sort.insert
is_new = refl

room : 0 < two.bucket_size
unfolding MessageCache.insert MessageCache.new_cache
room = omega arith

insert_drops_lowest_example :
    let old = bucket two "c1" in
    let new = bucket (MessageCache.insert sorter (message "n" 5) two) "c1" in
    (out : List Message) × ((p : Message → Bool)
      → count_if p new + count_if p out ≡ count_if p (old ++ message "n" 5 ∷ []))
    × (length out ≡ (if ltb (length old) two.bucket_size then 0 else 1))
    × All (λ d. All (λ y. seq_less y d ≡ false) new) out
insert_drops_lowest_example = insert_drops_lowest sorter (message "n" 5) two is_new

abbrev read : Message → Message
read m = record m { is_read = true }

read-SameKeys : (m : Message) → SameKeys (read m) m
read-SameKeys m = (refl, refl, refl)

-- ===== src/Witnesses/Sync.antt =====
-- The theorems on core/src/sync_engine.cpp at concrete inputs.
use anychat_sdk.Prelude.{
  String, false, ◌≡◌, ◌≢◌, refl, arith, ℤ, pos, List, [], ◌∷◌, Option, none, some, text_ne,
}
use anychat_sdk.Prelude.Sort.{Sorter, stable_sorter}
use anychat_sdk.Cache.ConversationCache
use anychat_sdk.Cache.ConversationCache.Invariant as Conversations
use anychat_sdk.Cache.MessageCache
use anychat_sdk.Cache.MessageCache.{seq_less, MessageCache}
use anychat_sdk.Cache.MessageCache.Invariant as Messages
use anychat_sdk.Cache.MessageCache.Invariant.{seq_less-IsStrictWeak}
use anychat_sdk.Json.Values.{IntegerValue, parse_int64_value}
use anychat_sdk.Json.Envelope.{HttpResponse, ApiEnvelope}
use anychat_sdk.Sync.{
  handle_sync_response, on_sync_reply, sync_request, request_seq, merge_response,
}
use anychat_sdk.Sync.Keeps.{AreValid, on_sync_reply-AreValid}
use anychat_sdk.Sync.Merge.{Stores, Readers, merge_conv_messages}
use anychat_sdk.Sync.Payloads.{
  SyncResponse, ConversationDelta, MessageDelta, ConversationMessages, payload_list,
}
use anychat_sdk.Sync.Sequence.{sync_time_remembered, session_forgets_seq}
use anychat_sdk.Sync.Stored.{synced_messages_not_stored}
use anychat_sdk.Sync.Tables.{Tables, ConversationRow, MessageRow}

abbrev sorter : Sorter seq_less
sorter = stable_sorter seq_less-IsStrictWeak

abbrev readers : Readers
readers = record { read_string = λ s. some s; calendar_ms = λ s. pos 0 }

abbrev row : ConversationRow
row = record {
  conv_id = "c1";
  conv_type = "private";
  target_id = "alice";
  last_msg_text = "";
  last_msg_time_ms = pos 0;
  unread_count = pos 0;
  is_pinned = false;
  is_muted = false;
  local_seq = pos 3;
  updated_at_ms = pos 0;
}

-- A message that an earlier sync stored.
abbrev old : MessageRow
old = record {
  message_id = "a";
  conv_id = "c1";
  sender_id = "alice";
  content_type = pos 1;
  content = "hello";
  seq = pos 3;
  reply_to = "";
  status = pos 0;
  send_state = pos 1;
  timestamp_ms = pos 0;
  local_id = "";
}

abbrev tables : Tables
tables = record {
  friends = [];
  groups = [];
  conversations = row ∷ [];
  messages = old ∷ [];
  metadata = [];
}

abbrev stores : Stores
stores = record {
  db = tables;
  conv_cache = [];
  msg_cache = record { bucket_size = 2; buckets = [] };
}

abbrev session : ConversationDelta
session = record {
  conversation_id = "c1";
  conversation_type = "single";
  target_id = "alice";
  last_message_content = none;
  last_message_time = none;
  unread_count = none;
  is_pinned = none;
  is_muted = none;
}

abbrev delta : MessageDelta
delta = record {
  message_id = "b";
  sender_id = "alice";
  content_type = none;
  content = none;
  sequence = some (IntegerValue.int64 (pos 4));
  reply_to = "";
  status = none;
  created_at = none;
}

abbrev news : List ConversationMessages
news = record { conversation_id = "c1"; messages = some (delta ∷ []) } ∷ []

abbrev root : ApiEnvelope SyncResponse
root = record {
  code = pos 0;
  message = "";
  payload = record {
    friends = none;
    groups = none;
    conversation_data = some (some (session ∷ []));
    conversations = some news;
    sync_time = some (IntegerValue.int64 (pos 50));
  };
}

abbrev read_response : String → Option (ApiEnvelope SyncResponse)
read_response body = some root

abbrev reply : ℤ → HttpResponse
reply status = record { status_code = status; body = "{}"; error = "" }

none-IsValid : Conversations.IsValid []
unfolding ConversationCache.clear
none-IsValid = Conversations.clear-IsValid []

stores-AreValid : AreValid stores
unfolding MessageCache.new_cache
stores-AreValid = record { conversations = none-IsValid; messages = Messages.new_cache-IsValid 2 }

on_sync_reply-AreValid_example :
    AreValid (on_sync_reply readers sorter read_response (pos 9) (reply (pos 200)) stores)
on_sync_reply-AreValid_example =
    on_sync_reply-AreValid readers sorter read_response (pos 9) (reply (pos 200)) stores
      stores-AreValid

bad_status : (reply (pos 500)).status_code ≢ pos 200
bad_status h = ground (arith, h)

synced_messages_not_stored_example :
    (merge_conv_messages readers sorter news stores).db.messages ≡ stores.db.messages
synced_messages_not_stored_example =
    synced_messages_not_stored readers sorter news stores (ground arith)

sync_time_remembered_example :
    (sync_request
      (handle_sync_response readers sorter read_response (pos 9) "{}" stores)).last_sync_time
    ≡ pos 50
unfolding parse_int64_value
sync_time_remembered_example =
    sync_time_remembered readers sorter read_response (pos 9) "{}" root 50 stores refl refl refl
      (omega arith) (omega arith)

abbrev sessions_only : SyncResponse
sessions_only = record (root.payload) { conversations = some [] }

session_forgets_seq_example :
    request_seq (merge_response readers sorter (pos 9) sessions_only stores).conv_cache row ≡ pos 0
unfolding payload_list
session_forgets_seq_example =
    session_forgets_seq readers sorter (pos 9) sessions_only [] [] session [] stores row
      none-IsValid refl (text_ne "c1" "" refl) refl tt refl

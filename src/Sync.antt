-- ===== src/Sync.antt =====
-- core/src/sync_engine.cpp: the incremental sync. The JSON readers are parameters, and the HTTP
-- client hands `sync`'s request out and the reply back in.
pub mod Payloads
pub mod Tables
pub mod Merge
pub mod Keeps
pub mod Sequence
pub mod Stored
use anychat_sdk.Prelude.{
  ℕ, String, Bool, true, false, ℤ, pos, ltb_ℤ, List, [], ◌∷◌, Option, none, some, is_empty,
  same_text, if◌then◌else◌, to_int32,
}
use anychat_sdk.Prelude.Sort.{Sorter}
use anychat_sdk.Cache.ConversationCache
use anychat_sdk.Cache.ConversationCache.{ConversationCache}
use anychat_sdk.Cache.MessageCache.{seq_less}
use anychat_sdk.Json.Digits.{codes, stoll, to_string}
use anychat_sdk.Json.Envelope.{HttpResponse, ApiEnvelope, same_int}
use anychat_sdk.Json.Values.{parse_int64_value}
use Payloads.{
  FriendDelta, GroupDelta, ConversationDelta, ConversationMessages, SyncResponse, SyncRequest,
  ConversationSeqRequest, payload_list,
}
use Tables.{ConversationRow, get_meta, set_meta}
use Merge.{Stores, Readers, merge_friends, merge_groups, merge_sessions, merge_conv_messages}

abbrev pub last_sync_key : String
last_sync_key = "last_sync_time"

-- The sequence number that `sync` asks from: the cached one, and the row's where none is cached.
unfoldable pub request_seq : ConversationCache → ConversationRow → ℤ
request_seq cache row = elim (ConversationCache.get row.conv_id cache) [
  | none ↦ row.local_seq
  | some cached ↦ cached.local_seq
]

-- The loop of `sync` over the rows of `conversations`.
unfoldable pub conversation_seqs :
    ConversationCache → List ConversationRow → List ConversationSeqRequest
unfolding request_seq
conversation_seqs cache [] = []
conversation_seqs cache (row ∷ rows) =
    if is_empty row.conv_id
    then conversation_seqs cache rows
    else record {
      conversation_id = row.conv_id;
      conversation_type = (if same_text row.conv_type "group" then "group" else "single");
      last_seq = request_seq cache row;
    }
      ∷ conversation_seqs cache rows

-- The request that `sync` posts to /sync.
unfoldable pub sync_request : Stores → SyncRequest
unfolding conversation_seqs
sync_request s = record {
  last_sync_time = elim (stoll (get_meta last_sync_key (codes "0") s.db)) [
    | none ↦ pos 0
    | some t ↦ t
  ];
  conversation_seqs = conversation_seqs s.conv_cache s.db.conversations;
}

module _ (readers : Readers) (sorter : Sorter seq_less) where
  unfoldable pub friends_part : Option (List FriendDelta) → Stores → Stores
  friends_part none s = s
  friends_part (some l) s = record s {
    db = record (s.db) { friends = merge_friends l s.db.friends };
  }

  unfoldable pub groups_part : Option (List GroupDelta) → Stores → Stores
  groups_part none s = s
  groups_part (some l) s = record s { db = record (s.db) { groups = merge_groups l s.db.groups } }

  unfoldable pub sessions_part : ℤ → Option (List ConversationDelta) → Stores → Stores
  sessions_part now none s = s
  sessions_part now (some l) s = merge_sessions readers now l s

  unfoldable pub messages_part : Option (List ConversationMessages) → Stores → Stores
  messages_part none s = s
  messages_part (some l) s = merge_conv_messages readers sorter l s

  -- The four merges of `handleSyncResponse`, in its order.
  unfoldable pub merge_response : ℤ → SyncResponse → Stores → Stores
  merge_response now r s = messages_part r.conversations (
      sessions_part now (payload_list r.conversation_data)
        (groups_part (payload_list r.groups) (friends_part (payload_list r.friends) s)))

  unfoldable pub store_sync_time : SyncResponse → Stores → Stores
  store_sync_time r s =
      let t = parse_int64_value r.sync_time (pos 0) in
      if ltb_ℤ (pos 0) t then record s { db = set_meta last_sync_key (to_string t) s.db } else s

  module _ (read_response : String → Option (ApiEnvelope SyncResponse)) where
    unfoldable pub handle_sync_response : ℤ → String → Stores → Stores
    unfolding merge_response store_sync_time
    handle_sync_response now body s = elim (read_response body) [
      | none ↦ s
      | some root ↦
          if same_int root.code (pos 0)
          then store_sync_time root.payload (merge_response now root.payload s)
          else s
    ]

    -- The callback of the POST.
    unfoldable pub on_sync_reply : ℤ → HttpResponse → Stores → Stores
    unfolding handle_sync_response
    on_sync_reply now resp s =
        if is_empty resp.error
        then (if same_int resp.status_code (pos 200)
            then handle_sync_response now resp.body s
            else s)
        else s

-- ===== src/Sync/Payloads.antt =====
-- The payload structs of core/src/sync_engine.cpp.
use anychat_sdk.Prelude.{String, ℤ, List, Option, none, some, is_empty, if◌then◌else◌}
use anychat_sdk.Json.Timestamps.{TimestampValue}
use anychat_sdk.Json.Values.{IntegerValue, BooleanValue}

pub record ConversationSeqRequest : Type 0 where
  pub conversation_id : String
  pub conversation_type : String
  pub last_seq : ℤ

pub record SyncRequest : Type 0 where
  pub last_sync_time : ℤ
  pub conversation_seqs : List ConversationSeqRequest

pub record FriendDelta : Type 0 where
  pub user_id : String
  pub remark : String
  pub updated_at : Option IntegerValue
  pub is_deleted : Option BooleanValue

pub record GroupDelta : Type 0 where
  pub group_id : String
  pub name : String
  pub avatar : String
  pub updated_at : Option IntegerValue
  pub member_count : Option IntegerValue

-- `std::variant<std::string, glz::raw_json>`
pub data MessageContent : Type 0 where
  text raw : String → MessageContent

pub record ConversationDelta : Type 0 where
  pub conversation_id : String
  pub conversation_type : String
  pub target_id : String
  pub last_message_content : Option MessageContent
  pub last_message_time : Option TimestampValue
  pub unread_count : Option IntegerValue
  pub is_pinned : Option BooleanValue
  pub is_muted : Option BooleanValue

pub record MessageDelta : Type 0 where
  pub message_id : String
  pub sender_id : String
  pub content_type : Option IntegerValue
  pub content : Option MessageContent
  pub sequence : Option IntegerValue
  pub reply_to : String
  pub status : Option IntegerValue
  pub created_at : Option TimestampValue

pub record ConversationMessages : Type 0 where
  pub conversation_id : String
  pub messages : Option (List MessageDelta)

-- `SyncResponseDataPayload`; the lists that stand in an object of their own are optional twice.
pub record SyncResponse : Type 0 where
  pub friends : Option (Option (List FriendDelta))
  pub groups : Option (Option (List GroupDelta))
  pub conversation_data : Option (Option (List ConversationDelta))
  pub conversations : Option (List ConversationMessages)
  pub sync_time : Option IntegerValue

-- `parseMessageContent`; glaze's reader of a JSON string is a parameter.
unfoldable pub parse_message_content : (String → Option String) → Option MessageContent → String
parse_message_content read_string none = ""
parse_message_content read_string (some (text s)) = s
parse_message_content read_string (some (raw s)) =
    if is_empty s then "" else elim (read_string s) [ none ↦ s | some t ↦ t ]

-- `toFriendPayloadList` and its siblings: a null pointer is none.
unfoldable pub payload_list : {A : Type 0} → Option (Option (List A)) → Option (List A)
payload_list none = none
payload_list (some l) = l

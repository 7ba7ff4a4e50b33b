-- ===== src/MessageManager/Payloads.antt =====
-- The payload structs of core/src/message_manager.cpp and what is read from them.
use anychat_sdk.Prelude.{
  ℕ, String, Bool, false, ◌||◌, ◌+◌, ℤ, pos, pos_part, neg_part, ltb, ltb_ℤ, to_int32, List, [],
  ◌∷◌, Option, none, some, is_empty, if◌then◌else◌,
}
use anychat_sdk.Types.{Message, text}
use anychat_sdk.Json.Digits.{codes}
use anychat_sdk.Json.Envelope.{same_int}
use anychat_sdk.Json.Timestamps.{TimestampValue, parse_timestamp_ms, scale}
use anychat_sdk.Json.Values.{
  IntegerValue, BooleanValue, to_lower, same_codes, parse_int64_value, parse_int32_value,
  parse_bool_value,
}
use anychat_sdk.Sync.Payloads.{MessageContent, parse_message_content}
use anychat_sdk.ConversationManager.Payloads.{value_or}

pub record MessagePayload : Type 0 where
  pub message_id : String
  pub local_id : String
  pub conversation_id : String
  pub sender_id : String
  pub content_type : Option IntegerValue
  pub content : Option MessageContent
  pub sequence : Option IntegerValue
  pub reply_to : String
  pub created_at : Option TimestampValue
  pub status : Option IntegerValue
  pub send_state : Option IntegerValue
  pub is_read : Option BooleanValue

pub record MessageListDataPayload : Type 0 where
  pub messages : Option (List MessagePayload)
  pub total : Option IntegerValue
  pub has_more : Option BooleanValue
  pub next_seq : Option IntegerValue

pub record GroupReadMemberPayload : Type 0 where
  pub user_id : String
  pub nickname : String
  pub name : String
  pub read_at : Option TimestampValue

pub record GroupReadStatePayload : Type 0 where
  pub read_count : Option IntegerValue
  pub unread_count : Option IntegerValue
  pub read_members : Option (List GroupReadMemberPayload)

-- `std::variant<std::monostate, EditMessageDataPayload, MessagePayload>`
pub data EditMessageData : Type 0 where
  empty : EditMessageData
  wrapped : Option MessagePayload → EditMessageData
  direct : MessagePayload → EditMessageData

pub record NotificationMessagePayload : Type 0 where
  pub message_id : String
  pub local_id : String
  pub conversation_id : String
  pub from_user_id : String
  pub content_type : Option IntegerValue
  pub content : String
  pub seq : Option ℤ
  pub reply_to : String
  pub sent_at : Option TimestampValue
  pub recalled_at : Option TimestampValue
  pub deleted_at : Option TimestampValue

pub record NotificationReadReceiptPayload : Type 0 where
  pub conversation_id : String
  pub from_user_id : Option String
  pub reader_user_id : Option String
  pub message_id : String
  pub last_read_seq : Option ℤ
  pub last_read_message_id : String
  pub read_at : Option TimestampValue

pub record NotificationTypingPayload : Type 0 where
  pub conversation_id : String
  pub from_user_id : String
  pub typing : Bool
  pub device_id : String
  pub expire_at : Option TimestampValue

pub record GroupMessageReadMember : Type 0 where
  pub user_id : String
  pub nickname : String
  pub read_at_ms : ℤ

pub record GroupMessageReadState : Type 0 where
  pub read_count : ℤ
  pub unread_count : ℤ
  pub read_members : List GroupMessageReadMember

pub record MessageReadReceiptEvent : Type 0 where
  pub conversation_id : String
  pub from_user_id : String
  pub message_id : String
  pub last_read_seq : ℤ
  pub last_read_message_id : String
  pub read_at_ms : ℤ

pub record MessageTypingEvent : Type 0 where
  pub conversation_id : String
  pub from_user_id : String
  pub typing : Bool
  pub expire_at_ms : ℤ
  pub device_id : String

-- `parseIntValue`
abbrev pub parse_int_value : Option IntegerValue → ℤ → ℤ
parse_int_value v def = to_int32 (parse_int64_value v def)

abbrev pub names_recall : List ℕ → Bool
names_recall s =
    same_codes s (codes "recalled")
    || same_codes s (codes "recall")
    || same_codes s (codes "revoked")

abbrev pub names_deletion : List ℕ → Bool
names_deletion s = same_codes s (codes "deleted") || same_codes s (codes "delete")

unfoldable pub parse_message_status : Option IntegerValue → ℤ → ℤ
unfolding to_lower
parse_message_status none def = def
parse_message_status (some (IntegerValue.int64 z)) def = to_int32 z
parse_message_status (some (IntegerValue.double d)) def = to_int32 d.truncated
parse_message_status (some (IntegerValue.text s)) def =
    let status = to_lower (codes s) in
    if names_recall status
    then pos 1
    else if names_deletion status
    then pos 2
    else parse_int_value (some (IntegerValue.text s)) def

-- 0 is the unspecified content type, 1 a text and 7 the last one that is known.
unfoldable pub normalize_message_content_type : Option IntegerValue → ℤ
unfolding parse_int32_value
normalize_message_content_type v =
    let z = parse_int32_value v (pos 1) in if ltb_ℤ z (pos 1) || ltb_ℤ (pos 7) z then pos 1 else z

-- Seconds below 10¹¹ in absolute value become milliseconds.
unfoldable pub normalize_epoch_ms : ℤ → ℤ
normalize_epoch_ms raw =
    if same_int raw (pos 0)
    then pos 0
    else if ltb (pos_part raw + neg_part raw) 100000000000
    then scale 1000 raw
    else raw

-- A `Message` that was not written to.
unfoldable pub blank_message : Message
blank_message = record {
  message_id = "";
  local_id = "";
  conv_id = "";
  sender_id = "";
  content_type = pos 0;
  type = text;
  content = "";
  seq = pos 0;
  reply_to = "";
  timestamp_ms = pos 0;
  status = pos 0;
  send_state = pos 0;
  is_read = false;
}

-- glaze's reader of a JSON string, and the reading of a calendar text.
module _ (read_string : String → Option String) (calendar_ms : String → ℤ) where
  unfoldable pub parse_message_payload : MessagePayload → String → Message
  parse_message_payload p default_conv_id = record {
    message_id = p.message_id;
    local_id = p.local_id;
    conv_id = (if is_empty p.conversation_id then default_conv_id else p.conversation_id);
    sender_id = p.sender_id;
    content_type = normalize_message_content_type p.content_type;
    type = text;
    content = parse_message_content read_string p.content;
    seq = parse_int64_value p.sequence (pos 0);
    reply_to = p.reply_to;
    timestamp_ms = parse_timestamp_ms calendar_ms p.created_at;
    status = parse_message_status p.status (pos 0);
    send_state = parse_int_value p.send_state (pos 0);
    is_read = parse_bool_value p.is_read false;
  }

-- The reading of a calendar text.
module _ (calendar_ms : String → ℤ) where
  abbrev pub read_members_of : List GroupReadMemberPayload → List GroupMessageReadMember
  read_members_of [] = []
  read_members_of (p ∷ ps) =
      record {
        user_id = p.user_id;
        nickname = (if is_empty p.nickname then p.name else p.nickname);
        read_at_ms = parse_timestamp_ms calendar_ms p.read_at;
      }
      ∷ read_members_of ps

  unfoldable pub parse_group_message_read_state : GroupReadStatePayload → GroupMessageReadState
  parse_group_message_read_state p = record {
    read_count = parse_int64_value p.read_count (pos 0);
    unread_count = parse_int64_value p.unread_count (pos 0);
    read_members = read_members_of (value_or p.read_members []);
  }

  unfoldable pub parse_message_from_notification : NotificationMessagePayload → Message
  unfolding blank_message
  parse_message_from_notification p = record blank_message {
    message_id = p.message_id;
    local_id = p.local_id;
    conv_id = p.conversation_id;
    sender_id = p.from_user_id;
    content_type = normalize_message_content_type p.content_type;
    content = p.content;
    seq = value_or p.seq (pos 0);
    reply_to = p.reply_to;
    timestamp_ms = parse_timestamp_ms calendar_ms p.sent_at;
  }

  unfoldable pub parse_read_receipt_from_notification :
      NotificationReadReceiptPayload → MessageReadReceiptEvent
  parse_read_receipt_from_notification p = record {
    conversation_id = p.conversation_id;
    from_user_id =
        (let from = value_or p.from_user_id "" in
          if is_empty from then value_or p.reader_user_id "" else from);
    message_id = p.message_id;
    last_read_seq = value_or p.last_read_seq (pos 0);
    last_read_message_id = p.last_read_message_id;
    read_at_ms = parse_timestamp_ms calendar_ms p.read_at;
  }

  unfoldable pub parse_typing_from_notification : NotificationTypingPayload → MessageTypingEvent
  parse_typing_from_notification p = record {
    conversation_id = p.conversation_id;
    from_user_id = p.from_user_id;
    typing = p.typing;
    expire_at_ms = parse_timestamp_ms calendar_ms p.expire_at;
    device_id = p.device_id;
  }

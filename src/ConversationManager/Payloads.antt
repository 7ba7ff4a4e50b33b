-- ===== src/ConversationManager/Payloads.antt =====
-- The payload structs of core/src/conversation_manager.cpp and what is read from them.
use anychat_sdk.Prelude.{
  String, Bool, false, ◌||◌, ℤ, pos, to_int32, List, Option, none, some, is_empty, same_text,
  if◌then◌else◌,
}
use anychat_sdk.Types.{Conversation, private, group, Message, text, UserInfo, blank_user}
use anychat_sdk.Json.Digits.{codes}
use anychat_sdk.Json.Timestamps.{TimestampValue, parse_timestamp_ms}
use anychat_sdk.Json.Values.{to_lower, same_codes}
use anychat_sdk.Sync.Payloads.{MessageContent, parse_message_content}

-- `parseInt32Value`, `parseInt64Value` and `parseBoolValue` of an optional number or truth value.
abbrev pub value_or {ℓ} : {A : Type ℓ} → Option A → A → A
value_or none def = def
value_or (some v) def = v

pub record ConversationPayload : Type 0 where
  pub conversation_id : String
  pub conversation_type : String
  pub target_id : String
  pub last_message_id : String
  pub last_message_content : String
  pub last_message_time : Option TimestampValue
  pub unread_count : Option ℤ
  pub is_pinned : Option Bool
  pub is_muted : Option Bool
  pub burn_after_reading : Option ℤ
  pub auto_delete_duration : Option ℤ
  pub pin_time : Option TimestampValue
  pub updated_at : Option TimestampValue

pub record MarkMessagesReadPayload : Type 0 where
  pub accepted_ids : Option (List String)
  pub ignored_ids : Option (List String)
  pub advanced_last_read_seq : Option ℤ

pub record UnreadStateMessagePayload : Type 0 where
  pub message_id : String
  pub conversation_id : String
  pub sender_id : String
  pub content_type : Option ℤ
  pub content : Option MessageContent
  pub sequence : Option ℤ
  pub timestamp : Option TimestampValue
  pub created_at : Option TimestampValue
  pub status : Option ℤ

pub record ConversationUnreadStatePayload : Type 0 where
  pub unread_count : Option ℤ
  pub last_message_seq : Option ℤ
  pub last_message : Option UnreadStateMessagePayload

pub record ReceiptUserInfoPayload : Type 0 where
  pub user_id : String
  pub nickname : String
  pub avatar : String

pub record ConversationReadReceiptPayload : Type 0 where
  pub user_id : String
  pub last_read_seq : Option ℤ
  pub last_read_message_id : String
  pub read_at : Option TimestampValue
  pub user_info : Option ReceiptUserInfoPayload

pub record NotificationConversationPayload : Type 0 where
  pub conversation_id : Option String
  pub unread_count : Option ℤ
  pub is_pinned : Option Bool
  pub is_muted : Option Bool
  pub burn_after_reading : Option ℤ
  pub auto_delete_duration : Option ℤ

-- `ConversationUnreadState`; the message is none where `has_last_message` is false.
pub record ConversationUnreadState : Type 0 where
  pub unread_count : ℤ
  pub last_message_seq : ℤ
  pub last_message : Option Message

pub record ConversationReadReceipt : Type 0 where
  pub user_id : String
  pub last_read_seq : ℤ
  pub last_read_message_id : String
  pub read_at_ms : ℤ
  pub user_info : UserInfo

pub record ConversationMarkReadResult : Type 0 where
  pub accepted_ids : List String
  pub ignored_ids : List String
  pub advanced_last_read_seq : ℤ

-- A `Conversation` that was not written to.
unfoldable pub blank_conversation : Conversation
blank_conversation = record {
  conv_id = "";
  conv_type = private;
  target_id = "";
  last_msg_id = "";
  last_msg_text = "";
  last_msg_time_ms = pos 0;
  unread_count = pos 0;
  is_pinned = false;
  is_muted = false;
  burn_after_reading = pos 0;
  auto_delete_duration = pos 0;
  pin_time_ms = pos 0;
  local_seq = pos 0;
  updated_at_ms = pos 0;
}

-- glaze's reader of a JSON string, and the reading of a calendar text.
module _ (read_string : String → Option String) (calendar_ms : String → ℤ) where
  unfoldable pub parse_conversation_payload : ConversationPayload → Conversation
  parse_conversation_payload p = record {
    conv_id = p.conversation_id;
    conv_type =
        (if same_codes (to_lower (codes p.conversation_type)) (codes "group")
          then group
          else private);
    target_id = p.target_id;
    last_msg_id = p.last_message_id;
    last_msg_text = p.last_message_content;
    last_msg_time_ms = parse_timestamp_ms calendar_ms p.last_message_time;
    unread_count = value_or p.unread_count (pos 0);
    is_pinned = value_or p.is_pinned false;
    is_muted = value_or p.is_muted false;
    burn_after_reading = value_or p.burn_after_reading (pos 0);
    auto_delete_duration = value_or p.auto_delete_duration (pos 0);
    pin_time_ms = parse_timestamp_ms calendar_ms p.pin_time;
    local_seq = pos 0;
    updated_at_ms = parse_timestamp_ms calendar_ms p.updated_at;
  }

  unfoldable pub parse_unread_state_message : UnreadStateMessagePayload → String → Message
  parse_unread_state_message p conv_id = record {
    message_id = p.message_id;
    local_id = "";
    conv_id = (if is_empty p.conversation_id then conv_id else p.conversation_id);
    sender_id = p.sender_id;
    content_type = value_or p.content_type (pos 1);
    type = text;
    content = parse_message_content read_string p.content;
    seq = value_or p.sequence (pos 0);
    reply_to = "";
    timestamp_ms = elim p.timestamp [
      | none ↦ parse_timestamp_ms calendar_ms p.created_at
      | some t ↦ parse_timestamp_ms calendar_ms (some t)
    ];
    status = to_int32 (value_or p.status (pos 0));
    send_state = pos 0;
    is_read = false;
  }

  unfoldable pub parse_receipt_user_info : ReceiptUserInfoPayload → UserInfo
  parse_receipt_user_info p = record blank_user {
    user_id = p.user_id;
    username = p.nickname;
    avatar_url = p.avatar;
  }

  unfoldable pub parse_read_receipt : ConversationReadReceiptPayload → ConversationReadReceipt
  unfolding parse_receipt_user_info
  parse_read_receipt p =
      let info : UserInfo = elim p.user_info [
        | none ↦ blank_user
        | some u ↦ parse_receipt_user_info u
      ] in
      record {
        user_id = p.user_id;
        last_read_seq = value_or p.last_read_seq (pos 0);
        last_read_message_id = p.last_read_message_id;
        read_at_ms = parse_timestamp_ms calendar_ms p.read_at;
        user_info = (if is_empty info.user_id then record info { user_id = p.user_id } else info);
      }

unfoldable pub notification_conversation_id : NotificationConversationPayload → String
notification_conversation_id p = value_or p.conversation_id ""

unfoldable pub apply_notification_patch :
    NotificationConversationPayload → Conversation → Conversation
unfolding notification_conversation_id
apply_notification_patch p conv =
    let k = notification_conversation_id p in
    record conv {
      conv_id = (if is_empty k then conv.conv_id else k);
      unread_count = value_or p.unread_count conv.unread_count;
      is_pinned = value_or p.is_pinned conv.is_pinned;
      is_muted = value_or p.is_muted conv.is_muted;
      burn_after_reading = value_or p.burn_after_reading conv.burn_after_reading;
      auto_delete_duration = value_or p.auto_delete_duration conv.auto_delete_duration;
    }

unfoldable pub is_conversation_notification : String → Bool
is_conversation_notification t =
    same_text t "conversation.unread_updated"
    || same_text t "conversation.pin_updated"
    || same_text t "conversation.mute_updated"
    || same_text t "conversation.deleted"
    || same_text t "conversation.burn_updated"
    || same_text t "conversation.auto_delete_updated"

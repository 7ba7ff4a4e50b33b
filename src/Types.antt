-- ===== src/Types.antt =====
-- The data of core/src/sdk_types.h that the modelled components keep: `ConnectionState`,
-- `Message`, `Conversation`, and `MsgSentAck` and `NotificationEvent` of
-- core/src/notification_manager.h, `NetworkStatus` of core/src/network_monitor.h. An `int64_t`
-- or `int32_t` is an integer.
use anychat_sdk.Prelude.{String, Bool, true, false, ℤ, pos}

pub data ConnectionState : Type 0 where
  disconnected connecting connected reconnecting : ConnectionState

pub ConnectionState-discrete : Discrete ConnectionState
ConnectionState-discrete = hlevel

pub data NetworkStatus : Type 0 where
  unknown not_reachable reachable_via_wifi reachable_via_cellular : NetworkStatus

unfoldable pub is_reachable : NetworkStatus → Bool
is_reachable reachable_via_wifi = true
is_reachable reachable_via_cellular = true
is_reachable _ = false

pub data MessageType : Type 0 where
  text image file audio video : MessageType

pub record Message : Type 0 where
  pub message_id : String
  pub local_id : String
  pub conv_id : String
  pub sender_id : String
  pub content_type : ℤ
  pub type : MessageType
  pub content : String
  pub seq : ℤ
  pub reply_to : String
  pub timestamp_ms : ℤ
  pub status : ℤ
  pub send_state : ℤ
  pub is_read : Bool

pub data ConversationType : Type 0 where
  private group : ConversationType

pub record Conversation : Type 0 where
  pub conv_id : String
  pub conv_type : ConversationType
  pub target_id : String
  pub last_msg_id : String
  pub last_msg_text : String
  pub last_msg_time_ms : ℤ
  pub unread_count : ℤ
  pub is_pinned : Bool
  pub is_muted : Bool
  pub burn_after_reading : ℤ
  pub auto_delete_duration : ℤ
  pub pin_time_ms : ℤ
  pub local_seq : ℤ
  pub updated_at_ms : ℤ

pub record MsgSentAck : Type 0 where
  pub message_id : String
  pub sequence : ℤ
  pub timestamp : ℤ
  pub local_id : String

pub record NotificationEvent : Type 0 where
  pub notification_type : String
  pub timestamp : ℤ
  pub payload : String  -- `data`

pub record UserInfo : Type 0 where
  pub user_id : String
  pub username : String
  pub avatar_url : String
  pub signature : String
  pub gender : ℤ
  pub region : String
  pub is_friend : Bool
  pub is_blocked : Bool

-- A `UserInfo` that was not written to.
abbrev pub blank_user : UserInfo
blank_user = record {
  user_id = "";
  username = "";
  avatar_url = "";
  signature = "";
  gender = pos 0;
  region = "";
  is_friend = false;
  is_blocked = false;
}

-- ===== src/Notification.antt =====
-- core/src/notification_manager.h and .cpp: frames from the server, given to the handlers that are
-- registered for them. The JSON readers are parameters. A handler is named by a number, and a
-- call of one is an entry of the result.

pub mod Dispatch
use anychat_sdk.Json.Values.{IntegerValue, parse_int64_value}
use anychat_sdk.Prelude.{
  ℕ, String, Bool, true, false, ℤ, pos, List, [], ◌∷◌, ◌++◌, Option, none, some, same_text,
  is_empty, if◌then◌else◌,
}
use anychat_sdk.Types.{MsgSentAck, NotificationEvent}

-- `WsFramePayload`; the payload is raw JSON.
pub record WsFrame : Type 0 where
  pub type : String
  pub payload : Option String

-- `MsgSentAckPayload`
pub record MsgSentAckPayload : Type 0 where
  pub message_id : String
  pub sequence : Option IntegerValue
  pub timestamp : Option IntegerValue
  pub local_id : String

-- `NotificationEnvelopePayload`
pub record NotificationEnvelope : Type 0 where
  pub type : String
  pub timestamp : Option IntegerValue
  pub payload : Option String

-- The three readers that `readJsonRelaxed` is used as; none where glaze reports an error.
pub record Readers : Type 0 where
  pub read_frame : String → Option WsFrame
  pub read_ack : String → Option MsgSentAckPayload
  pub read_envelope : String → Option NotificationEnvelope

pub record NotificationManager : Type 0 where
  pub on_msg_sent : Option ℕ
  pub notification_handlers : List (Option ℕ)  -- an empty function is none
  pub on_pong : Option ℕ

-- A call of a handler.
pub data Call : Type 0 where
  ponged : ℕ → Call
  acked : ℕ → MsgSentAck → Call
  notified : ℕ → NotificationEvent → Call

unfoldable pub create : NotificationManager
create = record { on_msg_sent = none; notification_handlers = []; on_pong = none }

unfoldable pub set_on_message_sent : Option ℕ → NotificationManager → NotificationManager
set_on_message_sent h m = record m { on_msg_sent = h }

unfoldable pub add_notification_handler : Option ℕ → NotificationManager → NotificationManager
add_notification_handler h m = record m {
  notification_handlers = m.notification_handlers ++ h ∷ [];
}

unfoldable pub set_on_pong : Option ℕ → NotificationManager → NotificationManager
set_on_pong h m = record m { on_pong = h }

-- `parseRawObject`
unfoldable pub parse_raw_object : {A : Type 0} → (String → Option A) → Option String → Option A
parse_raw_object read none = none
parse_raw_object read (some raw) = if is_empty raw then none else read raw

-- `rawJsonToString`
unfoldable pub raw_json_to_string : Option String → String
raw_json_to_string none = ""
raw_json_to_string (some raw) = if is_empty raw then "" else raw

-- The loop over the handlers.
unfoldable pub notify_all : NotificationEvent → List (Option ℕ) → List Call
notify_all evt [] = []
notify_all evt (none ∷ hs) = notify_all evt hs
notify_all evt (some h ∷ hs) = notified h evt ∷ notify_all evt hs

unfoldable pub on_pong_frame : NotificationManager → List Call
on_pong_frame m = elim m.on_pong [ none ↦ [] | some h ↦ ponged h ∷ [] ]

unfoldable pub ack_of : MsgSentAckPayload → MsgSentAck
ack_of p = record {
  message_id = p.message_id;
  sequence = parse_int64_value p.sequence (pos 0);
  timestamp = parse_int64_value p.timestamp (pos 0);
  local_id = p.local_id;
}

unfoldable pub event_of : NotificationEnvelope → NotificationEvent
unfolding raw_json_to_string
event_of p = record {
  notification_type = p.type;
  timestamp = parse_int64_value p.timestamp (pos 0);
  payload = (let raw = raw_json_to_string p.payload in if is_empty raw then "{}" else raw);
}

module _ (readers : Readers) where
  unfoldable pub on_ack_frame : Option String → NotificationManager → List Call
  unfolding parse_raw_object
  on_ack_frame payload m = elim (parse_raw_object readers.read_ack payload) [
    | none ↦ []
    | some p ↦ elim m.on_msg_sent [ none ↦ [] | some h ↦ acked h (ack_of p) ∷ [] ]
  ]

  unfoldable pub on_notification_frame : Option String → NotificationManager → List Call
  unfolding parse_raw_object
  on_notification_frame payload m = elim (parse_raw_object readers.read_envelope payload) [
    | none ↦ []
    | some p ↦ if is_empty p.type then [] else notify_all (event_of p) m.notification_handlers
  ]

  unfoldable pub handle_frame : WsFrame → NotificationManager → List Call
  unfolding on_pong_frame on_ack_frame on_notification_frame
  handle_frame frame m =
      if is_empty frame.type
      then []
      else if same_text frame.type "pong"
      then on_pong_frame m
      else if same_text frame.type "message.sent"
      then on_ack_frame frame.payload m
      else if same_text frame.type "notification"
      then on_notification_frame frame.payload m
      else []

  unfoldable pub handle_raw : String → NotificationManager → List Call
  unfolding handle_frame
  handle_raw raw_json m = elim (readers.read_frame raw_json) [
    | none ↦ []
    | some frame ↦ handle_frame frame m
  ]

-- ===== src/Witnesses/Notification.antt =====
-- The theorems on core/src/notification_manager.cpp at concrete inputs.
use anychat_sdk.Prelude.{String, pos, [], ◌∷◌, none, some}
use anychat_sdk.Json.Values.{IntegerValue}
use anychat_sdk.Notification.{
  WsFrame, MsgSentAckPayload, NotificationEnvelope, Readers, NotificationManager,
}

abbrev notice : NotificationEnvelope
notice = record {
  type = "friend.request";
  timestamp = some (IntegerValue.int64 (pos 17));
  payload = none;
}

abbrev sent : MsgSentAckPayload
sent = record {
  message_id = "s9";
  sequence = some (IntegerValue.int64 (pos 12));
  timestamp = none;
  local_id = "m1";
}

abbrev frame : String → WsFrame
frame type = record { type = type; payload = some "p" }

-- Every text is a frame whose type is the text.
abbrev readers : Readers
readers = record {
  read_frame = λ raw. some (frame raw);
  read_ack = λ payload. some sent;
  read_envelope = λ payload. some notice;
}

abbrev manager : NotificationManager
manager = record {
  on_msg_sent = some 1;
  notification_handlers = some 2 ∷ none ∷ some 3 ∷ [];
  on_pong = some 4;
}

-- ===== src/MessageManager.antt =====
-- core/src/message_manager.cpp: messages, kept in the cache and in the table, and sent through the
-- outbound queue. A method ends with an answer or with a request, and the reply to the request is a
-- function of its own. The JSON readers and writers are parameters.
pub mod Payloads
pub mod Rows
pub mod LocalIds
pub mod UrlEncode
pub mod Requests
pub mod Replies
pub mod Notifications
pub mod Lookup
pub mod Recall
pub mod Cached
pub mod Run
pub mod Edits
pub mod Ids
use anychat_sdk.Prelude.{
  ℕ, suc, String, Bool, true, false, not, ◌&&◌, ℤ, pos, List, [], ◌∷◌, Option, none, some, is_empty,
  if◌then◌else◌,
}
use anychat_sdk.Prelude.Sort.{Sorter}
use anychat_sdk.Types.{Message}
use anychat_sdk.Cache.MessageCache
use anychat_sdk.Cache.MessageCache.{MessageCache, seq_less, has_id}
use anychat_sdk.Http.{
  Next, Written, text, unwritable, answers, succeeded, refuse, with_reply, strict,
}
use anychat_sdk.Json.Envelope.{HttpResponse, Read, parse_api_envelope_response}
use anychat_sdk.Outbound.{Outbound, Codec, send_transient}
use anychat_sdk.MessageManager.Payloads.{
  MessageListDataPayload, GroupReadStatePayload, EditMessageData, NotificationMessagePayload,
  NotificationReadReceiptPayload, NotificationTypingPayload, MessageReadReceiptEvent,
  MessageTypingEvent,
}
use anychat_sdk.MessageManager.Rows.{Row, upsert_message_db, update_message_db}

-- A call of the listener.
pub data Told : Type 0 where
  received recalled deleted edited mentioned : Message → Told
  read_receipt : MessageReadReceiptEvent → Told
  typing : MessageTypingEvent → Told

-- `conversations` holds the keys of the table of conversations, `counter` is the process's counter
-- of local ids, and `log` holds the calls of the listener, the newest first.
pub record Manager : Type 0 where
  pub cache : MessageCache
  pub rows : List Row
  pub conversations : List String
  pub outbound : Outbound
  pub counter : ℕ
  pub current_user_id : String
  pub has_listener : Bool
  pub log : List Told

-- The frames that the manager writes for the WebSocket.
pub data Frame : Type 0 where
  recall_frame delete_frame : String → Frame
  edit_frame : String → String → Frame
  typing_frame : String → Bool → Option ℤ → Frame

-- glaze, and what else the manager calls and does not implement.
pub record Api : Type 0 where
  pub read_none : String → Read (Unit {0})
  pub read_messages : String → Read MessageListDataPayload
  pub read_group_state : String → Read GroupReadStatePayload
  pub read_edit : String → Read EditMessageData
  pub read_message_notification : String → Option NotificationMessagePayload
  pub read_receipt_notification : String → Option NotificationReadReceiptPayload
  pub read_typing_notification : String → Option NotificationTypingPayload
  pub write_ack : String → List String → Written
  pub write_ids : List String → Written
  pub write_recall : String → Written
  pub write_edit : String → Written
  pub write_frame : Frame → Written
  pub read_string : String → Option String
  pub calendar_ms : String → ℤ
  pub http_message : ℤ → String
  pub codec : Codec
  pub sorter : Sorter seq_less

unfoldable pub tell : Told → Manager → Manager
tell t s = if s.has_listener then record s { log = t ∷ s.log } else s

unfoldable pub set_listener : Bool → Manager → Manager
set_listener present s = record s { has_listener = present }

unfoldable pub set_current_user_id : String → Manager → Manager
set_current_user_id uid s = record s { current_user_id = uid }

-- The first message with the id, in the order in which `updateMessageById` looks.
unfoldable pub first_with_id : String → List Message → Option Message
first_with_id i [] = none
first_with_id i (m ∷ ms) = if has_id i m then some m else first_with_id i ms

unfoldable pub find_message : String → List (String × List Message) → Option Message
unfolding first_with_id
find_message i [] = none
find_message i ((k, b) ∷ bs) = elim (first_with_id i b) [
  | some m ↦ some m
  | none ↦ find_message i bs
]

-- `msg_cache_->updateMessageById`, where the result is not looked at.
unfoldable pub update_cached : String → (Message → Message) → Manager → Manager
update_cached i change s = record s {
  cache = (MessageCache.update_message_by_id i change s.cache).0;
}

unfoldable pub update_db : String → ℤ → Option String → Manager → Manager
unfolding update_message_db
update_db i status content s = record s { rows = update_message_db i status content s.rows }

unfoldable pub upsert_db : Message → Manager → Manager
unfolding upsert_message_db
upsert_db m s = record s { rows = upsert_message_db s.conversations m s.rows }

module _ (api : Api) where
  open api use {sorter, write_frame, http_message}

  unfoldable pub insert_cached : Message → Manager → Manager
  insert_cached m s = record s { cache = MessageCache.insert sorter m s.cache }

  -- `upsertMessageDb(msg); msg_cache_->insert(msg);`, in either order.
  unfoldable pub store : Message → Manager → Manager
  unfolding insert_cached upsert_db
  store m s = insert_cached m (upsert_db m s)

  -- `writeJson` of a frame, `sendTransient`, and the callback.
  unfoldable pub send_frame : Frame → Manager → Manager × Next (Unit {0})
  unfolding send_transient
  send_frame frame s = elim (write_frame frame) [
    | unwritable err ↦ (s, refuse err)
    | text json ↦
        let (outbound, sent) = send_transient json s.outbound in
        (
          record s { outbound = outbound },
          if sent then answers (succeeded tt) else refuse "websocket not connected",
        )
  ]

  -- `makeHttpError`
  unfoldable pub make_http_error : HttpResponse → String
  make_http_error resp = if is_empty resp.error then http_message resp.status_code else resp.error
